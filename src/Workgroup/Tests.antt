-- ===== src/Workgroup/Tests.antt =====
-- Tasks that ask for the continuations 0, 1, 2 in turn, and end after the last; the environment
-- is the list of the data that they have seen.
use hypercomm.Base.{
  ℕ, suc, ◌+◌, ◌≡◌, refl, true, List, [], ◌∷◌, ◌++◌, some, none, ltb, lookup, insert, nat_eq,
}
use hypercomm.Workgroup.{
  Payload, TaskMessage, Program, Workgroup, resume, create, resume_task, buffer_payload,
  continue_all, try_continue,
}
use hypercomm.Workgroup.Migration.{Memory, TaskClass}
use hypercomm.Workgroup.Continue.{IsSettled}
use hypercomm.Workgroup.Settled.{resume-IsSettled, Created, create-IsSettled}
use hypercomm.Workgroup.Runs.{Resumed}

abbrev prog : Program (List ℕ) ℕ ℕ
prog = record {
  creator = λ kind p env.
      (record { kind = kind; active = true; continuation = 0; state = 0 }, env ++ p.data_of ∷ []);
  continuation =
      λ id t p env. (record t { active = ltb id 2; continuation = suc id }, env ++ p.data_of ∷ []);
}

abbrev payload : ℕ → ℕ → Payload ℕ
payload id x = record { id = id; data_of = x }

abbrev no_tasks : Workgroup ℕ ℕ
no_tasks = record { active = 0; last_task = 9; tasks = []; buffers = [] }

no_tasks-IsSettled : IsSettled no_tasks
unfolding lookup
no_tasks-IsSettled = record { settled = λ t task l. cc; filed = λ tid id. tt }

-- A payload for the second continuation of task 8 comes before the task.
abbrev early : Workgroup ℕ ℕ
early = (resume prog 8 (payload 1 21) no_tasks []).0

abbrev message : TaskMessage ℕ
message = record { tid = 8; kind = 3; payload = payload 0 19 }

abbrev created : Workgroup ℕ ℕ
created = elim (create prog message early []) [ none ↦ early | some (wg, env) ↦ wg ]

early-IsSettled : IsSettled early
early-IsSettled = (resume-IsSettled prog 8 (payload 1 21) no_tasks [] no_tasks-IsSettled).1

early-new : lookup 8 early.tasks ≡ none
unfolding resume resume_task buffer_payload lookup
early-new = refl

created-IsSettled : IsSettled created
created-IsSettled =
    let (wg, env, e, ran, s) = create-IsSettled prog message early [] early-IsSettled early-new in
    rw (created, e) s

create-IsSettled_example :
    (wg' : Workgroup ℕ ℕ) × (env' : List ℕ) × (create prog message early [] ≡ some (wg', env'))
    × Created prog message early (prog.creator message.kind message.payload []) wg' env'
    × IsSettled wg'
create-IsSettled_example = create-IsSettled prog message early [] early-IsSettled early-new

-- The first continuation's payload comes: both run.
resume-IsSettled_example :
    (let out = resume prog 8 (payload 0 20) created [] in
      Resumed prog 8 (payload 0 20) created [] out.0 out.1)
    × IsSettled (resume prog 8 (payload 0 20) created []).0
resume-IsSettled_example = resume-IsSettled prog 8 (payload 0 20) created [] created-IsSettled

both_run : (resume prog 8 (payload 0 20) created []).1 ≡ 20 ∷ 21 ∷ []
unfolding resume resume_task buffer_payload lookup insert create continue_all try_continue
both_run = refl

-- One class of tasks, whose payloads are in memory.
abbrev only_class : TaskClass ℕ ℕ
only_class = record { owns = λ s. true; pack_state = λ s. s; unpack_state = λ x. some x }

abbrev in_memory : Program (List ℕ) ℕ Memory
in_memory = record {
  creator = λ kind p env.
      (record { kind = kind; active = true; continuation = 0; state = 0 }, env ++ p.data_of.bytes);
  continuation =
      λ id t p env. (record t { active = ltb id 2; continuation = suc id }, env ++ p.data_of.bytes);
}

abbrev memory : ℕ → Memory
memory at_place = record { src = at_place; bytes = 7 ∷ 8 ∷ []; len = 2; data_ptr = at_place + 40 }

abbrev nothing_yet : Workgroup ℕ Memory
nothing_yet = record { active = 0; last_task = 0; tasks = []; buffers = [] }

-- A payload waits for its task, and another creates it.
abbrev waiting : Workgroup ℕ Memory
waiting = (resume in_memory 8 (record { id = 1; data_of = memory 64 }) nothing_yet []).0

abbrev first_message : TaskMessage Memory
first_message = record { tid = 8; kind = 0; payload = record { id = 0; data_of = memory 128 } }

abbrev running : Workgroup ℕ Memory
running = elim (create in_memory first_message waiting []) [ none ↦ waiting | some (wg, _) ↦ wg ]
