-- ===== src/Workgroup/Runs.antt =====
-- What a task does with the payloads of src/hypercomm/tasking/workgroup.cc: which continuation runs
-- on which payload, in which order.
use hypercomm.Base.{
  ℕ, zero, suc, ◌<◌, ◌≡◌, ◌≢◌, refl, sym, subst, ◌∙◌, inl, inr, Bool, true, false, ◌&&◌, List, [],
  ◌∷◌, ◌++◌, none, some, arith, if◌then◌else◌, All, List-cases, Bool-cases, Option-cases, nat_beq,
  nat_beq_iff, nat_eq, lookup, lookup_or, insert, erase, lookup-erase,
}
use hypercomm.Workgroup.{
  Task, Payload, Program, Workgroup, queue_of, set_queue, keep_task, resume_task, try_continue,
  queued, continue_all, resume, buffer_payload,
}
use hypercomm.Workgroup.Continue.{
  IsFiled, set_queue-IsFiled, served, resume_task-fits, served-queued, queue_of-set_queue,
}

module _ {E S M : Type 0} (prog : Program E S M) where
  -- A task goes on: while the queue of its continuation has a payload, the first one leaves the
  -- queue and the continuation runs on it; what it makes of the task is kept while it is active.
  pub data Ran (tid : ℕ) : Workgroup S M → E → Workgroup S M → E → Type 0 where
    ended : {wg : Workgroup S M} {env : E} → lookup tid wg.tasks ≡ none → Ran tid wg env wg env
    awaits :
        {wg : Workgroup S M} {env : E} (t : Task S)
        → lookup tid wg.tasks ≡ some t
        → queue_of tid t.continuation wg.buffers ≡ []
        → Ran tid wg env wg env
    went_on :
        {wg wg' : Workgroup S M} {env env' : E} (t t' : Task S) (env1 : E) (p : Payload M)
        (ps : List (Payload M))
        → lookup tid wg.tasks ≡ some t
        → queue_of tid t.continuation wg.buffers ≡ p ∷ ps
        → prog.continuation t.continuation t p env ≡ (t', env1)
        → Ran tid
            (record wg {
              active = tid;
              tasks = if t'.active then insert tid t' wg.tasks else erase tid wg.tasks;
              buffers = set_queue tid t.continuation ps wg.buffers;
            })
            env1
            wg'
            env'
        → Ran tid wg env wg' env'

  -- The task that a continuation or a creator left runs on, or it has ended.
  carry_on :
      (tid : ℕ) (wg : Workgroup S M) (env : E) (again : Workgroup S M × E) (b : Bool)
      → (b ≡ true → Ran tid wg env again.0 again.1)
      → (b ≡ false → lookup tid wg.tasks ≡ none)
      → (let done : Workgroup S M × E = elim b [ true ↦ again | false ↦ (wg, env) ] in
          Ran tid wg env done.0 done.1)
  carry_on tid wg env again true on off = on refl
  carry_on tid wg env again false on off = ended (off refl)

  served-none :
      (wg : Workgroup S M) (tid id : ℕ) (ps : List (Payload M)) (t : Task S)
      → t.active ≡ false
      → lookup tid (keep_task prog wg tid t).tasks ≡ none
  served-none wg tid id ps t h = rw (h, lookup-erase tid tid) (ground arith)

  step :
      (tid : ℕ) (wg : Workgroup S M) (env : E) (t : Task S) (p : Payload M) (ps : List (Payload M))
      (out : Task S × E) (again : Workgroup S M → E → Workgroup S M × E)
      → lookup tid wg.tasks ≡ some t
      → queue_of tid t.continuation wg.buffers ≡ p ∷ ps
      → prog.continuation t.continuation t p env ≡ out
      → (let next : Workgroup S M = served prog wg tid t.continuation ps out.0 in
          Ran tid next out.1 (again next out.1).0 (again next out.1).1)
      → (let done : Workgroup S M × E = elim out.0.active [
        | true ↦ again (served prog wg tid t.continuation ps out.0) out.1
        | false ↦ (served prog wg tid t.continuation ps out.0, out.1)
      ] in
          Ran tid wg env done.0 done.1)
  step tid wg env t p ps (t', env1) again l e h next = went_on t t' env1 p ps l e h (
      carry_on tid (served prog wg tid t.continuation ps t') env1
        (again (served prog wg tid t.continuation ps t') env1) t'.active (λ _. next)
        (served-none wg tid t.continuation ps t'))

  pub try_continue-Ran :
      (fuel tid : ℕ) (wg : Workgroup S M) (env : E)
      → queued (lookup_or tid [] wg.buffers) < fuel
      → IsFiled wg.buffers
      → (let out = try_continue prog fuel tid wg env in Ran tid wg env out.0 out.1)
  unfolding try_continue
  try_continue-Ran zero tid wg env h f = absurd (omega arith)
  try_continue-Ran (suc fuel) tid wg env h f = elim (Option-cases (lookup tid wg.tasks)) [
    | inl out ↦ rw (try_continue, out) (ended out)
    | inr (t, l) ↦ elim (List-cases (queue_of tid t.continuation wg.buffers)) [
      | inl e ↦ rw (try_continue, l) (rw e (awaits t l e))
      | inr (p, ps, e) ↦
          let both = subst (λ q. All (λ p. p.id ≡ t.continuation) q) e (f tid t.continuation) in
          let out : Task S × E = prog.continuation t.continuation t p env in
          let next : Workgroup S M = served prog wg tid t.continuation ps out.0 in
          rw (try_continue, l)
            (rw (e, resume_task-fits prog tid p wg t env l (sym both.0))
              (step tid wg env t p ps out (λ w e. try_continue prog fuel tid w e) l e refl
                (try_continue-Ran fuel tid next out.1
                  (served-queued prog wg tid fuel t out.0 p ps e h)
                  (set_queue-IsFiled tid t.continuation ps wg.buffers f both.1))))
    ]
  ]

  pub continue_all-Ran :
      (tid : ℕ) (wg : Workgroup S M) (env : E)
      → IsFiled wg.buffers
      → (let out = continue_all prog tid wg env in Ran tid wg env out.0 out.1)
  unfolding continue_all
  continue_all-Ran tid wg env f =
      try_continue-Ran (suc (queued (lookup_or tid [] wg.buffers))) tid wg env (omega arith) f

  -- The payload is last in its queue, and nothing else has changed.
  pub record IsBuffered (tid : ℕ) (p : Payload M) (wg wg' : Workgroup S M) : Type 0 where
    pub tasks_same : wg'.tasks ≡ wg.tasks
    pub counter_same : wg'.last_task ≡ wg.last_task
    pub added : queue_of tid p.id wg'.buffers ≡ queue_of tid p.id wg.buffers ++ p ∷ []
    pub others_same :
        (t i : ℕ)
        → (nat_beq tid t && nat_beq p.id i) ≡ false
        → queue_of t i wg'.buffers ≡ queue_of t i wg.buffers

  -- How a message for a task ends. Its task is not there, or waits for another one: the message is
  -- buffered and nothing runs. Or the continuation that the task waits in runs on it, and the task
  -- goes on from there.
  pub data Resumed (tid : ℕ) (p : Payload M) (wg : Workgroup S M) (env : E)
      : Workgroup S M → E → Type 0 where
    unknown :
        {wg' : Workgroup S M}
        → lookup tid wg.tasks ≡ none
        → IsBuffered tid p wg wg'
        → Resumed tid p wg env wg' env
    too_early :
        {wg' : Workgroup S M} (t : Task S)
        → lookup tid wg.tasks ≡ some t
        → t.continuation ≢ p.id
        → IsBuffered tid p wg wg'
        → Resumed tid p wg env wg' env
    delivered :
        {wg' : Workgroup S M} {env' : E} (t t' : Task S) (env1 : E)
        → lookup tid wg.tasks ≡ some t
        → t.continuation ≡ p.id
        → prog.continuation t.continuation t p env ≡ (t', env1)
        → Ran tid
            (record wg {
              active = tid;
              tasks = if t'.active then insert tid t' wg.tasks else erase tid wg.tasks;
            })
            env1
            wg'
            env'
        → Resumed tid p wg env wg' env'

  buffer_payload-IsBuffered :
      (tid : ℕ) (p : Payload M) (wg : Workgroup S M) → IsBuffered tid p wg (buffer_payload tid p wg)
  unfolding buffer_payload
  buffer_payload-IsBuffered tid p wg = record {
    tasks_same = refl;
    counter_same = refl;
    added =
        let own : (nat_beq tid tid && nat_beq p.id p.id) ≡ true = ground arith in
        queue_of-set_queue tid p.id tid p.id _ wg.buffers ∙ rw own refl;
    others_same = λ t i other. queue_of-set_queue tid p.id t i _ wg.buffers ∙ rw other refl;
  }

  carry_on_if :
      (tid : ℕ) (wg : Workgroup S M) (env : E) (again : Workgroup S M × E) (b : Bool)
      → (b ≡ true → Ran tid wg env again.0 again.1)
      → (b ≡ false → lookup tid wg.tasks ≡ none)
      → (let done : Workgroup S M × E = if b then again else (wg, env) in
          Ran tid wg env done.0 done.1)
  carry_on_if tid wg env again true on off = on refl
  carry_on_if tid wg env again false on off = ended (off refl)

  deliver :
      (tid : ℕ) (p : Payload M) (wg : Workgroup S M) (env : E) (t : Task S) (out : Task S × E)
      → IsFiled wg.buffers
      → lookup tid wg.tasks ≡ some t
      → t.continuation ≡ p.id
      → prog.continuation t.continuation t p env ≡ out
      → (let done : Workgroup S M × E =
            if out.0.active
            then continue_all prog tid (keep_task prog wg tid out.0) out.1
            else (keep_task prog wg tid out.0, out.1) in
          Resumed tid p wg env done.0 done.1)
  deliver tid p wg env t (t', env1) f l same h = delivered t t' env1 l same h (
      carry_on_if tid (keep_task prog wg tid t') env1
        (continue_all prog tid (keep_task prog wg tid t') env1) t'.active
        (λ _. continue_all-Ran tid (keep_task prog wg tid t') env1 f)
        (served-none wg tid p.id [] t'))

  pub resume-Resumed :
      (tid : ℕ) (p : Payload M) (wg : Workgroup S M) (env : E)
      → IsFiled wg.buffers
      → (let out = resume prog tid p wg env in Resumed tid p wg env out.0 out.1)
  unfolding resume resume_task
  resume-Resumed tid p wg env f = elim (Option-cases (lookup tid wg.tasks)) [
    | inl out ↦ rw (resume, resume_task, out) (unknown out (buffer_payload-IsBuffered tid p wg))
    | inr (t, l) ↦ elim (Bool-cases (nat_beq t.continuation p.id)) [
      | inr e ↦
          rw (resume, resume_task, l)
            (rw e (
              too_early t l (λ same. absurd (ground (arith, nat_beq_iff t.continuation p.id)))
                (buffer_payload-IsBuffered tid p wg)))
      | inl e ↦
          rw (resume, resume_task, l)
            (rw e (
              deliver tid p wg env t (prog.continuation t.continuation t p env) f l
                ((nat_beq_iff t.continuation p.id).0 e) refl))
    ]
  ]
