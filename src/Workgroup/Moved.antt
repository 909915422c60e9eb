-- ===== src/Workgroup/Moved.antt =====
-- `workgroup::pup` of src/hypercomm/tasking/workgroup.cc: what a workgroup's migration keeps.
use hypercomm.Base.{
  ℕ, ◌<◌, ◌≡◌, refl, ap, sym, true, List, [], ◌∷◌, some, map, arith, get_elem?, Assoc, All,
  All-get_elem?, nat_eq,
}
use hypercomm.Workgroup.{Task, Payload, Workgroup}
use hypercomm.Workgroup.Migration.{
  word, Memory, TaskClass, TaskImage, Image, pack_payload, unpack_payload, unpack_each, at_key,
  unpack_at_key, pack_buffers, unpack_buffers, pack_task, unpack_task, pack_tasks, unpack_tasks,
  pack, unpack,
}

module _ (alloc : ℕ → ℕ) (small : (n : ℕ) → alloc n < word) where
  -- The data of a payload stands at the same place of its message, wherever that is put.
  payload_moved :
      (n : ℕ) (p : Payload Memory)
      → pack_payload (unpack_payload alloc n (pack_payload p)).0 ≡ pack_payload p
  unfolding pack_payload unpack_payload
  payload_moved n p =
      let m = p.data_of in
      ap (λ (o : ℕ). record { id = p.id; bytes = m.bytes; len = m.len; offset = o })
        (omega (arith, small n))

each_moved :
    {A B : Type 0} (f : B → A) (g : ℕ → A → B × ℕ)
    → ((n : ℕ) (b : B) → f (g n (f b)).0 ≡ f b)
    → (n : ℕ) (bs : List B) → map f (unpack_each g n (map f bs)).0 ≡ map f bs
unfolding unpack_each
each_moved f g ok n [] = refl
each_moved f g ok n (b ∷ bs) =
    rw (ok n b) (ap (λ rest. f b ∷ rest) (each_moved f g ok (g n (f b)).1 bs))

key_moved :
    {A B : Type 0} (f : B → A) (g : ℕ → A → B × ℕ)
    → ((n : ℕ) (b : B) → f (g n (f b)).0 ≡ f b)
    → (n : ℕ) (entry : ℕ × B) → at_key f (unpack_at_key g n (at_key f entry)).0 ≡ at_key f entry
key_moved f g ok n (k, b) = ap (λ a. (k, a)) (ok n b)

buffers_moved :
    (alloc : ℕ → ℕ) (n : ℕ) (buffers : Assoc ℕ (Assoc ℕ (List (Payload Memory))))
    → ((k : ℕ) → alloc k < word)
    → pack_buffers (unpack_buffers alloc n (pack_buffers buffers)).0 ≡ pack_buffers buffers
buffers_moved alloc n buffers small =
    let queue = unpack_each (unpack_payload alloc) in
    let queues = unpack_each (unpack_at_key queue) in
    each_moved (at_key (map (at_key (map pack_payload)))) (unpack_at_key queues)
      (key_moved (map (at_key (map pack_payload))) queues (
        each_moved (at_key (map pack_payload)) (unpack_at_key queue) (
          key_moved (map pack_payload) queue
            (each_moved pack_payload (unpack_payload alloc) (payload_moved alloc small)))))
      n buffers

module _ {S X : Type 0} (records : List (TaskClass S X)) where
  -- A task's class is registered, and its state is one of the class.
  abbrev pub IsClassed : Task S → Type 0
  IsClassed t =
      (cls : TaskClass S X) × (get_elem? records t.kind ≡ some cls) × (cls.owns t.state ≡ true)

  -- The classes pack their own states, and read them again.
  abbrev pub IsCodec : Type 0
  IsCodec =
      All (λ cls. (s : S) → cls.owns s ≡ true → cls.unpack_state (cls.pack_state s) ≡ some s)
        records

  abbrev pub IsFit : Task S → Type 0
  IsFit t = (t.active ≡ true) × IsClassed t

  abbrev pub AllFit : Assoc ℕ (Task S) → Type 0
  AllFit ts = All (λ (entry : ℕ × Task S). IsFit entry.1) ts

  task_moved :
      (t : Task S)
      → IsCodec
      → IsFit t
      → (i : TaskImage X) × (pack_task records t ≡ some i) × (unpack_task records i ≡ some t)
  unfolding pack_task unpack_task
  task_moved t codec (active, (cls, found, own)) =
      let back = All-get_elem? _ records t.kind cls codec found t.state own in
      (
        record { kind = t.kind; continuation = t.continuation; state = cls.pack_state t.state },
        rw (found, active) refl,
        rw (found, back) (ap (λ b. some (record t { active = b })) (sym active)),
      )

  pub tasks_moved :
      (ts : Assoc ℕ (Task S))
      → IsCodec
      → AllFit ts
      → (is : List (ℕ × TaskImage X)) × (pack_tasks records ts ≡ some is)
        × (unpack_tasks records is ≡ some ts)
  unfolding pack_tasks unpack_tasks
  tasks_moved [] codec h = ([], refl, refl)
  tasks_moved ((tid, t) ∷ ts) codec h =
      let (i, packs, unpacks) = task_moved t codec h.0 in
      let (is, packs_all, unpacks_all) = tasks_moved ts codec h.1 in
      ((tid, i) ∷ is, rw (packs, packs_all) refl, rw (unpacks, unpacks_all) refl)

  -- Tasks that are fit migrate, with everything but the addresses.
  pub pack_moved :
      (alloc : ℕ → ℕ) (unset n : ℕ) (wg : Workgroup S Memory)
      → ((k : ℕ) → alloc k < word)
      → IsCodec
      → AllFit wg.tasks
      → (i : Image X) × (wg' : Workgroup S Memory) × (n' : ℕ) × (pack records wg ≡ some i)
        × (unpack records alloc unset n i ≡ some (wg', n'))
        × (pack records wg' ≡ some i)
        × (wg'.tasks ≡ wg.tasks)
        × (wg'.last_task ≡ wg.last_task)
  unfolding pack unpack
  pack_moved alloc unset n wg small codec h =
      let (is, packs, unpacks) = tasks_moved wg.tasks codec h in
      let back = unpack_buffers alloc n (pack_buffers wg.buffers) in
      (
        record { last_task = wg.last_task; tasks = is; buffers = pack_buffers wg.buffers },
        record { active = unset; last_task = wg.last_task; tasks = wg.tasks; buffers = back.0 },
        back.1,
        rw packs refl,
        rw unpacks refl,
        rw (packs, buffers_moved alloc n wg.buffers small) refl,
        refl,
        refl,
      )
