-- ===== src/Workgroup/Migration.antt =====
-- The migration of a workgroup: `workgroup::pup` and `task_base_::pup_base_` of
-- src/hypercomm/tasking/workgroup.cc, the payloads and tasks of
-- include/hypercomm/tasking/workgroup.hpp, and the records of task classes. The image that is sent
-- holds the values of the fields in order. Where the runtime puts an unpacked message is a
-- parameter, and so are the fields that a task's class packs itself.
use hypercomm.Base.{
  ◌>>=◌, ℕ, suc, ◌+◌, ◌-◌, ◌%◌, ◌^◌, Bool, true, List, [], ◌∷◌, ◌++◌, Option, none, some, map,
  length, get_elem?, Assoc, if◌then◌else◌,
}
use hypercomm.Workgroup.{Task, Payload, Workgroup}

abbrev pub word : ℕ
word = 2 ^ 64

-- The memory of a `task_payload`: the address and the bytes of its message, and the data in it.
pub record Memory : Type 0 where
  pub src : ℕ
  pub bytes : List ℕ
  pub len : ℕ
  pub data_ptr : ℕ

-- A class of tasks as the registry knows it: which states are its own, and its `pup`.
pub record TaskClass (S X : Type 0) : Type 0 where
  pub owns : S → Bool
  pub pack_state : S → X
  pub unpack_state : X → Option S

pub record PayloadImage : Type 0 where
  pub id : ℕ
  pub bytes : List ℕ
  pub len : ℕ
  pub offset : ℕ

pub record TaskImage (X : Type 0) : Type 0 where
  pub kind : ℕ
  pub continuation : ℕ
  pub state : X

pub record Image (X : Type 0) : Type 0 where
  pub last_task : ℕ
  pub tasks : List (ℕ × TaskImage X)
  pub buffers : List (ℕ × List (ℕ × List PayloadImage))

-- `task_payload::pup`, packing: the data is found by its offset in the message.
unfoldable pub pack_payload : Payload Memory → PayloadImage
pack_payload p =
    let m = p.data_of in
    record { id = p.id; bytes = m.bytes; len = m.len; offset = (m.data_ptr + word - m.src) % word }

module _ (alloc : ℕ → ℕ) where
  -- `task_payload::pup`, unpacking: the n-th message is put where the runtime has room for it.
  unfoldable pub unpack_payload : ℕ → PayloadImage → Payload Memory × ℕ
  unpack_payload n p = (
    record {
      id = p.id;
      data_of = record {
        src = alloc n;
        bytes = p.bytes;
        len = p.len;
        data_ptr = (alloc n + p.offset) % word;
      };
    },
    suc n,
  )

-- A sequence of values, unpacked one after the other.
unfoldable pub unpack_each : {A B : Type 0} → (ℕ → A → B × ℕ) → ℕ → List A → List B × ℕ
unpack_each f n [] = ([], n)
unpack_each f n (x ∷ xs) = let (y, n1) = f n x in let (ys, n2) = unpack_each f n1 xs in (y ∷ ys, n2)

-- An entry of a map, by its value.
abbrev pub at_key : {A B : Type 0} → (A → B) → ℕ × A → ℕ × B
at_key f (k, v) = (k, f v)

abbrev pub unpack_at_key : {A B : Type 0} → (ℕ → A → B × ℕ) → ℕ → ℕ × A → (ℕ × B) × ℕ
unpack_at_key f n (k, v) = let (w, n1) = f n v in ((k, w), n1)

abbrev pub pack_buffers :
    Assoc ℕ (Assoc ℕ (List (Payload Memory))) → List (ℕ × List (ℕ × List PayloadImage))
pack_buffers = map (at_key (map (at_key (map pack_payload))))

abbrev pub unpack_buffers :
    (ℕ → ℕ)
    → ℕ
    → List (ℕ × List (ℕ × List PayloadImage))
    → Assoc ℕ (Assoc ℕ (List (Payload Memory))) × ℕ
unpack_buffers alloc =
    unpack_each (unpack_at_key (unpack_each (unpack_at_key (unpack_each (unpack_payload alloc)))))

module _ {S X : Type 0} where
  -- `register_task_`: the kind of a class is its place among the records.
  unfoldable pub register_task : TaskClass S X → List (TaskClass S X) → ℕ × List (TaskClass S X)
  register_task cls records = (length records, records ++ cls ∷ [])

  module _ (records : List (TaskClass S X)) where
    -- `get_task_puper_`.
    abbrev pub get_task_puper : ℕ → Option (TaskClass S X)
    get_task_puper kind = get_elem? records kind

    -- A task's pointer is packed by its kind, and by the puper of that kind; `pup_base_` asserts
    -- that the task is active.
    unfoldable pub pack_task : Task S → Option (TaskImage X)
    pack_task t = get_task_puper t.kind >>= λ cls.
        if t.active
        then some (record {
          kind = t.kind;
          continuation = t.continuation;
          state = cls.pack_state t.state;
        })
        else none

    -- The puper of a kind makes a new task of its class, which is active.
    unfoldable pub unpack_task : TaskImage X → Option (Task S)
    unpack_task i = get_task_puper i.kind >>= λ cls. cls.unpack_state i.state >>= λ s.
        some (record { kind = i.kind; active = true; continuation = i.continuation; state = s })

    unfoldable pub pack_tasks : Assoc ℕ (Task S) → Option (List (ℕ × TaskImage X))
    pack_tasks [] = some []
    pack_tasks ((tid, t) ∷ ts) = pack_task t >>= λ i. pack_tasks ts >>= λ is. some ((tid, i) ∷ is)

    unfoldable pub unpack_tasks : List (ℕ × TaskImage X) → Option (Assoc ℕ (Task S))
    unpack_tasks [] = some []
    unpack_tasks ((tid, i) ∷ is) =
        unpack_task i >>= λ t. unpack_tasks is >>= λ ts. some ((tid, t) ∷ ts)

    -- `workgroup::pup`, packing.
    unfoldable pub pack : Workgroup S Memory → Option (Image X)
    pack wg = pack_tasks wg.tasks >>= λ tasks.
        some (record { last_task = wg.last_task; tasks = tasks; buffers = pack_buffers wg.buffers })

    -- `workgroup::pup`, unpacking into a new workgroup, whose active task is not set.
    unfoldable pub unpack : (ℕ → ℕ) → ℕ → ℕ → Image X → Option (Workgroup S Memory × ℕ)
    unpack alloc unset n i = unpack_tasks i.tasks >>= λ tasks.
        let (buffers, n') = unpack_buffers alloc n i.buffers in
        some
          (record { active = unset; last_task = i.last_task; tasks = tasks; buffers = buffers }, n')
