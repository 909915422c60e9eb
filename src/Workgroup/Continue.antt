-- ===== src/Workgroup/Continue.antt =====
-- `try_continue_` of src/hypercomm/tasking/workgroup.cc: a task goes on through what is buffered.
use mathlib.Core.Path.{subst}
use hypercomm.Base.{
  ℕ, zero, suc, ◌+◌, ◌<◌, ◌≡◌, refl, sym, ap, ◌∙◌, inl, inr, true, false, ◌&&◌, List, [], ◌∷◌, none,
  some, arith, if◌then◌else◌, length, All, List-cases, Bool-cases, Option-cases, nat_beq,
  nat_beq_iff, nat_eq, Assoc, lookup, lookup_or, insert, lookup-insert, lookup-erase,
  lookup_or-insert,
}
use hypercomm.Workgroup.{
  Task, Payload, Program, Buffers, Workgroup, queue_of, set_queue, keep_task, resume_task,
  try_continue, queued,
}

pub some-injective : {A : Type 0} {a b : A} → some a ≡ some b → a ≡ b
some-injective h = cc

module _ {M : Type 0} where
  pub queue_of-set_queue :
      (tid id t i : ℕ) (q : List (Payload M)) (b : Buffers M)
      → queue_of t i (set_queue tid id q b)
        ≡ (if nat_beq tid t && nat_beq id i then q else queue_of t i b)
  queue_of-set_queue tid id t i q b = elim (Bool-cases (nat_beq tid t)) [
    | inr h ↦ rw (lookup_or-insert tid t, h)
    | inl h ↦
        let same = (nat_beq_iff tid t).0 h in
        rw (lookup_or-insert tid t, h)
          (rw (lookup_or-insert id i) (elim (Bool-cases (nat_beq id i)) [
            | inl g ↦ rw g
            | inr g ↦ rw g (ap (λ x. queue_of x i b) same)
          ]))
  ]

  queued-insert :
      (id : ℕ) (q : List (Payload M)) (m : Assoc ℕ (List (Payload M)))
      → queued (insert id q m) + length (lookup_or id [] m) ≡ queued m + length q
  unfolding insert lookup
  queued-insert id q [] = omega arith
  queued-insert id q ((k, v) ∷ m) = elim (Bool-cases (nat_beq k id)) [
    | inl h ↦ rw (insert, lookup_or, lookup, h) (omega arith)
    | inr h ↦ rw (insert, lookup_or, lookup, h) (omega (arith, queued-insert id q m))
  ]

  -- Each payload is filed under its own identifier.
  abbrev pub IsFiled : Buffers M → Type 0
  IsFiled b = (tid id : ℕ) → All (λ p. p.id ≡ id) (queue_of tid id b)

  pub set_queue-IsFiled :
      (tid id : ℕ) (q : List (Payload M)) (b : Buffers M)
      → IsFiled b
      → All (λ p. p.id ≡ id) q
      → IsFiled (set_queue tid id q b)
  set_queue-IsFiled tid id q b f h t i =
      rw (queue_of-set_queue tid id t i q b) (elim (Bool-cases (nat_beq tid t && nat_beq id i)) [
        | inl e ↦ rw e (subst (λ x. All (λ p. p.id ≡ x) q) ((nat_beq_iff id i).0 (ground arith)) h)
        | inr e ↦ rw e (f t i)
      ])

module _ {S M : Type 0} where
  -- No task but perhaps one waits for a payload that is there.
  abbrev pub IsSettledBut : ℕ → Workgroup S M → Type 0
  IsSettledBut tid wg =
      (t : ℕ) (task : Task S)
      → nat_beq tid t ≡ false
      → lookup t wg.tasks ≡ some task
      → queue_of t task.continuation wg.buffers ≡ []

  -- No task waits for a payload that is there, and payloads are filed under their identifiers.
  pub record IsSettled (wg : Workgroup S M) : Type 0 where
    pub settled :
        (t : ℕ) (task : Task S)
        → lookup t wg.tasks ≡ some task
        → queue_of t task.continuation wg.buffers ≡ []
    pub filed : IsFiled wg.buffers

  pub IsSettled-one :
      (tid : ℕ) (wg : Workgroup S M)
      → IsFiled wg.buffers
      → IsSettledBut tid wg
      → ((task : Task S)
          → lookup tid wg.tasks ≡ some task
          → queue_of tid task.continuation wg.buffers ≡ [])
      → IsSettled wg
  IsSettled-one tid wg f others mine = record {
    settled = λ t task l. elim (Bool-cases (nat_beq tid t)) [
      | inl e ↦
          let same = (nat_beq_iff tid t).0 e in
          subst (λ x. queue_of x task.continuation wg.buffers ≡ []) same
            (mine task (subst (λ x. lookup x wg.tasks ≡ some task) (sym same) l))
      | inr e ↦ others t task e l
    ];
    filed = f;
  }

module _ {E S M : Type 0} (prog : Program E S M) where
  -- The workgroup after a task has run on the first payload of a queue.
  abbrev pub served : Workgroup S M → ℕ → ℕ → List (Payload M) → Task S → Workgroup S M
  served wg tid id ps t =
      let wg1 : Workgroup S M = keep_task prog wg tid t in
      record wg1 { buffers = set_queue tid id ps wg.buffers }

  pub keep_task-lookup :
      (wg : Workgroup S M) (tid j : ℕ) (t : Task S)
      → nat_beq tid j ≡ false
      → lookup j (keep_task prog wg tid t).tasks ≡ lookup j wg.tasks
  keep_task-lookup wg tid j t h = elim (Bool-cases t.active) [
    | inl e ↦ rw (e, lookup-insert tid j, h)
    | inr e ↦ rw (e, lookup-erase tid j, h)
  ]

  served-IsSettledBut :
      (wg : Workgroup S M) (tid id : ℕ) (ps : List (Payload M)) (t : Task S)
      → IsSettledBut tid wg
      → IsSettledBut tid (served wg tid id ps t)
  served-IsSettledBut wg tid id ps t others j task ne l =
      rw (queue_of-set_queue tid id j task.continuation ps wg.buffers, ne)
        (others j task ne (sym (keep_task-lookup wg tid j t ne) ∙ l))

  pub resume_task-fits :
      (tid : ℕ) (p : Payload M) (wg : Workgroup S M) (t : Task S) (env : E)
      → lookup tid wg.tasks ≡ some t
      → t.continuation ≡ p.id
      → resume_task prog tid p wg env ≡ (
          let (t', env') = prog.continuation t.continuation t p env in
          some (t'.active, keep_task prog wg tid t', env'))
  unfolding resume_task
  resume_task-fits tid p wg t env l e =
      rw (resume_task, l) (rw ((nat_beq_iff t.continuation p.id).1 e))

  -- Serving a payload leaves fewer in the queues.
  pub served-queued :
      (wg : Workgroup S M) (tid fuel : ℕ) (t t' : Task S) (p : Payload M) (ps : List (Payload M))
      → queue_of tid t.continuation wg.buffers ≡ p ∷ ps
      → queued (lookup_or tid [] wg.buffers) < suc fuel
      → queued (lookup_or tid [] (served wg tid t.continuation ps t').buffers) < fuel
  served-queued wg tid fuel t t' p ps e h =
      let q : Assoc ℕ (List (Payload M)) = lookup_or tid [] wg.buffers in
      let now : queued (lookup_or tid [] (served wg tid t.continuation ps t').buffers)
          ≡ queued (insert t.continuation ps q) =
        rw (lookup_or-insert tid tid) (ground arith) in
      let long : length (lookup_or t.continuation [] q) ≡ suc (length ps) = ap length e in
      omega (arith, h, now, queued-insert t.continuation ps q, long)

  -- What holds when a task has run as far as it can.
  step :
      (tid id : ℕ) (ps : List (Payload M)) (wg : Workgroup S M) (out : Task S × E)
      (again : Workgroup S M → E → Workgroup S M × E)
      → IsFiled wg.buffers
      → IsSettledBut tid wg
      → All (λ q. q.id ≡ id) ps
      → ((wg' : Workgroup S M) (e : E)
          → wg'.buffers ≡ set_queue tid id ps wg.buffers
          → IsFiled wg'.buffers
          → IsSettledBut tid wg'
          → IsSettled (again wg' e).0)
      → (let done : Workgroup S M × E = elim out.0.active [
        | true ↦ again (served wg tid id ps out.0) out.1
        | false ↦ (served wg tid id ps out.0, out.1)
      ] in
          IsSettled done.0)
  step tid id ps wg (t, env') again f others h next = elim (Bool-cases t.active) [
    | inl e ↦ rw e (
        next (served wg tid id ps t) env' refl (set_queue-IsFiled tid id ps wg.buffers f h)
          (served-IsSettledBut wg tid id ps t others))
    | inr e ↦ rw e (
        IsSettled-one tid (served wg tid id ps t) (set_queue-IsFiled tid id ps wg.buffers f h)
          (served-IsSettledBut wg tid id ps t others) (λ task l. absurd (gone t e task l)))
  ]
    where
      erased : (t : Task S) → t.active ≡ false → lookup tid (served wg tid id ps t).tasks ≡ none
      erased t e = rw (e, lookup-erase tid tid) (ground arith)

      gone :
          (t : Task S)
          → t.active ≡ false
          → (task : Task S) → lookup tid (served wg tid id ps t).tasks ≡ some task
          → ⊥
      gone t e task l = cc (erased t e, l)

  pub try_continue-IsSettled :
      (fuel tid : ℕ) (wg : Workgroup S M) (env : E)
      → queued (lookup_or tid [] wg.buffers) < fuel
      → IsFiled wg.buffers
      → IsSettledBut tid wg
      → IsSettled (try_continue prog fuel tid wg env).0
  unfolding try_continue
  try_continue-IsSettled zero tid wg env h f others = absurd (omega arith)
  try_continue-IsSettled (suc fuel) tid wg env h f others =
      elim (Option-cases (lookup tid wg.tasks)) [
        | inl out ↦
            rw (try_continue, out) (IsSettled-one tid wg f others (λ task l. absurd (cc (out, l))))
        | inr (t, l) ↦ elim (List-cases (queue_of tid t.continuation wg.buffers)) [
          | inl e ↦
              rw (try_continue, l)
                (rw e (
                  IsSettled-one tid wg f others (λ task l'.
                    subst (λ x. queue_of tid x.continuation wg.buffers ≡ [])
                      (some-injective (sym l ∙ l')) e)))
          | inr (p, ps, e) ↦
              let both = subst (λ q. All (λ p. p.id ≡ t.continuation) q) e (f tid t.continuation) in
              rw (try_continue, l)
                (rw (e, resume_task-fits tid p wg t env l (sym both.0))
                  (step tid t.continuation ps wg (prog.continuation t.continuation t p env)
                    (λ w e. try_continue prog fuel tid w e) f others both.1
                    (λ w env' same f' others'.
                      try_continue-IsSettled fuel tid w env' (fewer t p ps e w same) f' others')))
        ]
      ]
    where
      fewer :
          (t : Task S) (p : Payload M) (ps : List (Payload M))
          → queue_of tid t.continuation wg.buffers ≡ p ∷ ps
          → (w : Workgroup S M) → w.buffers ≡ set_queue tid t.continuation ps wg.buffers
          → queued (lookup_or tid [] w.buffers) < fuel
      fewer t p ps e w same =
          let q : Assoc ℕ (List (Payload M)) = lookup_or tid [] wg.buffers in
          let now : queued (lookup_or tid [] w.buffers) ≡ queued (insert t.continuation ps q) =
            rw (same, lookup_or-insert tid tid) (ground arith) in
          let long : length (lookup_or t.continuation [] q) ≡ suc (length ps) = ap length e in
          omega (arith, h, now, queued-insert t.continuation ps q, long)
