-- ===== src/Workgroup.antt =====
-- src/hypercomm/tasking/workgroup.cc and include/hypercomm/tasking/workgroup.hpp: tasks that
-- suspend between messages. A message names the continuation it is for; one that comes out of
-- order is buffered. Creators and continuations are the program's own code, parameters here: a
-- continuation reaches the workgroup by messages only, which are effects on the environment.
pub mod Continue
pub mod Settled
pub mod Runs
pub mod Migration
pub mod Moved
pub mod Histories
mod Tests
use hypercomm.Base.{
  ℕ, zero, suc, ◌+◌, ◌%◌, ◌^◌, Bool, true, false, List, [], ◌∷◌, ◌++◌, Option, none, some,
  if◌then◌else◌, Assoc, lookup, lookup_or, insert, erase, nat_eq, nat_beq, length,
}

-- `task_base_`: `S` is what a task's class adds.
pub record Task (S : Type 0) : Type 0 where
  pub kind : ℕ
  pub active : Bool
  pub continuation : ℕ
  pub state : S

-- `task_payload`: `id` is the reference number of its message.
pub record Payload (M : Type 0) : Type 0 where
  pub id : ℕ
  pub data_of : M

-- `task_message`.
pub record TaskMessage (M : Type 0) : Type 0 where
  pub tid : ℕ
  pub kind : ℕ
  pub payload : Payload M

-- `get_task_creator_` and `get_continuation_`.
pub record Program (E S M : Type 0) : Type 0 where
  pub creator : ℕ → Payload M → E → Task S × E
  pub continuation : ℕ → Task S → Payload M → E → Task S × E

-- `buffers_`: for each task and continuation, the payloads in order of arrival.
abbrev pub Buffers : Type 0 → Type 0
Buffers M = Assoc ℕ (Assoc ℕ (List (Payload M)))

pub record Workgroup (S M : Type 0) : Type 0 where
  pub active : ℕ
  pub last_task : ℕ
  pub tasks : Assoc ℕ (Task S)
  pub buffers : Buffers M

module _ {M : Type 0} where
  abbrev pub queue_of : ℕ → ℕ → Buffers M → List (Payload M)
  queue_of tid id buffers = lookup_or id [] (lookup_or tid [] buffers)

  -- How many payloads a task's queues hold.
  abbrev pub queued : Assoc ℕ (List (Payload M)) → ℕ
  queued [] = 0
  queued ((id, q) ∷ qs) = length q + queued qs

  abbrev pub set_queue : ℕ → ℕ → List (Payload M) → Buffers M → Buffers M
  set_queue tid id q buffers = insert tid (insert id q (lookup_or tid [] buffers)) buffers

module _ {S M : Type 0} where
  -- `generate_id`: the counter has 32 bits. The identifier pairs it with the index of the host.
  unfoldable pub generate_id : ℕ → Workgroup S M → (ℕ × ℕ) × Workgroup S M
  generate_id host wg =
      ((host, wg.last_task), record wg { last_task = (wg.last_task + 1) % 2 ^ 32 })

  -- `buffer_`.
  unfoldable pub buffer_payload : ℕ → Payload M → Workgroup S M → Workgroup S M
  buffer_payload tid p wg = record wg {
    buffers = set_queue tid p.id (queue_of tid p.id wg.buffers ++ p ∷ []) wg.buffers;
  }

module _ {E S M : Type 0} (prog : Program E S M) where
  -- After the continuation: a task that is not active any more is discarded.
  abbrev pub keep_task : Workgroup S M → ℕ → Task S → Workgroup S M
  keep_task wg tid t = record wg {
    active = tid;
    tasks = if t.active then insert tid t wg.tasks else erase tid wg.tasks;
  }

  -- `resume(tid, payload, &active)`, without what follows when nobody observes: `none` if the
  -- message is rejected, else whether the task is kept.
  unfoldable pub resume_task : ℕ → Payload M → Workgroup S M → E → Option (Bool × Workgroup S M × E)
  resume_task tid p wg env = elim (lookup tid wg.tasks) [
    | none ↦ none
    | some t ↦
        if nat_beq t.continuation p.id
        then (let (t', env') = prog.continuation t.continuation t p env in
            some (t'.active, keep_task wg tid t', env'))
        else none
  ]

  -- `try_continue_`; each round takes a payload out of the task's buffers.
  unfoldable pub try_continue : ℕ → ℕ → Workgroup S M → E → Workgroup S M × E
  try_continue zero tid wg env = (wg, env)
  try_continue (suc fuel) tid wg env = elim (lookup tid wg.tasks) [
    | none ↦ (wg, env)
    | some t ↦ elim (queue_of tid t.continuation wg.buffers) [
      | [] ↦ (wg, env)
      | p ∷ ps ↦ elim (resume_task tid p wg env) [
        | none ↦ (wg, env)
        | some (keep, wg1, env1) ↦
            let wg2 : Workgroup S M = record wg1 {
              buffers = set_queue tid t.continuation ps wg1.buffers;
            } in
            elim keep [ true ↦ try_continue fuel tid wg2 env1 | false ↦ (wg2, env1) ]
      ]
    ]
  ]

  unfoldable pub continue_all : ℕ → Workgroup S M → E → Workgroup S M × E
  continue_all tid wg env = try_continue (suc (queued (lookup_or tid [] wg.buffers))) tid wg env

  -- `resume` of a message, and of a reduction's result, whose first element is the task.
  unfoldable pub resume : ℕ → Payload M → Workgroup S M → E → Workgroup S M × E
  resume tid p wg env = elim (resume_task tid p wg env) [
    | none ↦ (buffer_payload tid p wg, env)
    | some (keep, wg', env') ↦ if keep then continue_all tid wg' env' else (wg', env')
  ]

  -- `create`; `none` is the failed assertion that the task is new.
  unfoldable pub create : TaskMessage M → Workgroup S M → E → Option (Workgroup S M × E)
  create msg wg env =
      let (t, env') = prog.creator msg.kind msg.payload env in
      let wg1 : Workgroup S M = record wg { active = msg.tid } in
      if t.active
      then elim (lookup msg.tid wg.tasks) [
        | none ↦ some (continue_all msg.tid (record wg1 { tasks = insert msg.tid t wg.tasks }) env')
        | some _ ↦ none
      ]
      else some (wg1, env')
