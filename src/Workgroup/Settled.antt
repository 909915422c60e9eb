-- ===== src/Workgroup/Settled.antt =====
-- `resume` and `create` of src/hypercomm/tasking/workgroup.cc: no task is left waiting for a payload
-- that is there.
use mathlib.Core.Path.{subst}
use hypercomm.Base.{
  ℕ, suc, ◌≡◌, refl, sym, ◌∙◌, ◌⊎◌, inl, inr, Bool, true, false, ◌&&◌, [], ◌∷◌, none, some, arith,
  if◌then◌else◌, All-append, Bool-cases, Option-cases, nat_beq, nat_eq, lookup, lookup_or, insert,
  lookup-insert, lookup-erase,
}
use hypercomm.Workgroup.{
  Task, Payload, TaskMessage, Program, Workgroup, buffer_payload, keep_task, resume_task, queued,
  continue_all, resume, create,
}
use hypercomm.Workgroup.Continue.{
  some-injective, queue_of-set_queue, set_queue-IsFiled, IsSettledBut, IsSettled, IsSettled-one,
  keep_task-lookup, try_continue-IsSettled,
}
use hypercomm.Workgroup.Runs.{Ran, Resumed, resume-Resumed, continue_all-Ran}

module _ {E S M : Type 0} (prog : Program E S M) where
  buffered-IsSettled :
      (tid : ℕ) (p : Payload M) (wg : Workgroup S M)
      → IsSettled wg
      → ((t : Task S) → lookup tid wg.tasks ≡ some t → nat_beq t.continuation p.id ≡ false)
      → IsSettled (buffer_payload tid p wg)
  unfolding buffer_payload
  buffered-IsSettled tid p wg s other =
      IsSettled-one tid (buffer_payload tid p wg)
        (set_queue-IsFiled tid p.id _ wg.buffers s.filed
          (All-append (λ q. q.id ≡ p.id) _ (p ∷ []) (s.filed tid p.id) (refl, tt)))
        (λ t task ne l.
          rw (queue_of-set_queue tid p.id t task.continuation _ wg.buffers, ne)
            (s.settled t task l))
        (λ task l.
          rw (queue_of-set_queue tid p.id tid task.continuation _ wg.buffers)
            (rw (differs task (other task l)) (s.settled tid task l)))
    where
      differs :
          (task : Task S)
          → nat_beq task.continuation p.id ≡ false
          → (nat_beq tid tid && nat_beq p.id task.continuation) ≡ false
      differs task h = ground arith

  kept-IsSettledBut :
      (wg : Workgroup S M) (tid : ℕ) (t : Task S)
      → IsSettled wg
      → IsSettledBut tid (keep_task prog wg tid t)
  kept-IsSettledBut wg tid t s j task ne l =
      s.settled j task (sym (keep_task-lookup prog wg tid j t ne) ∙ l)

  either :
      (b : Bool) (stop go : Workgroup S M × E)
      → (b ≡ false → IsSettled stop.0)
      → IsSettled go.0
      → (let done : Workgroup S M × E = if b then go else stop in IsSettled done.0)
  either true stop go h g = g
  either false stop go h g = h refl

  kept-IsSettled :
      (wg : Workgroup S M) (tid : ℕ) (out : Task S × E)
      → IsSettled wg
      → (let done : Workgroup S M × E =
            if out.0.active
            then continue_all prog tid (keep_task prog wg tid out.0) out.1
            else (keep_task prog wg tid out.0, out.1) in
          IsSettled done.0)
  unfolding continue_all
  kept-IsSettled wg tid (t, env') s =
      either t.active (keep_task prog wg tid t, env')
        (continue_all prog tid (keep_task prog wg tid t) env')
        (λ e.
          IsSettled-one tid (keep_task prog wg tid t) s.filed (kept-IsSettledBut wg tid t s)
            (λ task l. absurd (gone e task l)))
        (try_continue-IsSettled prog (suc (queued (lookup_or tid [] wg.buffers))) tid
          (keep_task prog wg tid t) env' (omega arith) s.filed (kept-IsSettledBut wg tid t s))
    where
      erased : t.active ≡ false → lookup tid (keep_task prog wg tid t).tasks ≡ none
      erased e = rw (e, lookup-erase tid tid) (ground arith)

      gone :
          t.active ≡ false
          → (task : Task S) → lookup tid (keep_task prog wg tid t).tasks ≡ some task
          → ⊥
      gone e task l = cc (erased e, l)

  resumed-IsSettled :
      (tid : ℕ) (p : Payload M) (wg : Workgroup S M) (env : E)
      → IsSettled wg
      → IsSettled (resume prog tid p wg env).0
  unfolding resume resume_task
  resumed-IsSettled tid p wg env s = elim (Option-cases (lookup tid wg.tasks)) [
    | inl out ↦
        rw (resume, resume_task, out)
          (buffered-IsSettled tid p wg s (λ t l. absurd (clash t out l)))
    | inr (t, l) ↦ elim (Bool-cases (nat_beq t.continuation p.id)) [
      | inr e ↦
          rw (resume, resume_task, l)
            (rw e (
              buffered-IsSettled tid p wg s (λ t' l'.
                subst (λ x. nat_beq x.continuation p.id ≡ false) (some-injective (sym l ∙ l')) e)))
      | inl e ↦
          rw (resume, resume_task, l)
            (rw e (kept-IsSettled wg tid (prog.continuation t.continuation t p env) s))
    ]
  ]
    where
      clash : (t : Task S) → lookup tid wg.tasks ≡ none → lookup tid wg.tasks ≡ some t → ⊥
      clash t a b = cc (a, b)

  -- A message for a task of a workgroup where no task waits for a payload that is there, and
  -- payloads are filed under their identifiers. If the task is not there, or waits in another
  -- continuation, the message is put last into its queue, nothing runs, and the tasks and other
  -- queues stay as they are. Else the continuation that the task waits in runs on the message, and
  -- the task goes on: while the queue of the continuation that it waits in then has a payload, the
  -- first one leaves the queue and the continuation runs on it, until the task has ended or its
  -- queue is empty. Then again no task waits for a payload that is there.
  pub resume-IsSettled :
      (tid : ℕ) (p : Payload M) (wg : Workgroup S M) (env : E)
      → IsSettled wg
      → (let out = resume prog tid p wg env in Resumed prog tid p wg env out.0 out.1)
        × IsSettled (resume prog tid p wg env).0
  resume-IsSettled tid p wg env s =
      (resume-Resumed prog tid p wg env s.filed, resumed-IsSettled tid p wg env s)

  -- What a creator leaves: an active task is inserted and goes on, another one is dropped.
  abbrev pub Created : TaskMessage M → Workgroup S M → Task S × E → Workgroup S M → E → Type 0
  Created msg wg (t, env1) wg' env' =
      ((t.active ≡ true)
        × Ran prog msg.tid (record wg { active = msg.tid; tasks = insert msg.tid t wg.tasks }) env1
            wg' env')
      ⊎ ((t.active ≡ false) × (wg' ≡ record wg { active = msg.tid }) × (env' ≡ env1))

  -- A message that creates a task, in a workgroup without a task of that identifier, where no task
  -- waits for a payload that is there and payloads are filed under their identifiers. Its creator
  -- runs on the payload. If the task is active then, it is inserted and goes on through the
  -- payloads that came before it: while the queue of the continuation that it waits in has one, the
  -- first leaves the queue and the continuation runs on it, until the task has ended or its queue
  -- is empty. If not, nothing is inserted and nothing else runs. Then again no task waits for a
  -- payload that is there.
  pub create-IsSettled :
      (msg : TaskMessage M) (wg : Workgroup S M) (env : E)
      → IsSettled wg
      → lookup msg.tid wg.tasks ≡ none
      → (wg' : Workgroup S M) × (env' : E) × (create prog msg wg env ≡ some (wg', env'))
        × Created msg wg (prog.creator msg.kind msg.payload env) wg' env'
        × IsSettled wg'
  unfolding create continue_all
  create-IsSettled msg wg env s new =
      let out : Task S × E = prog.creator msg.kind msg.payload env in
      let wg1 : Workgroup S M = record wg {
        active = msg.tid;
        tasks = insert msg.tid out.0 wg.tasks;
      } in
      elim (Bool-cases out.0.active) [
        | inl e ↦
            let go : Workgroup S M × E = continue_all prog msg.tid wg1 out.1 in
            (
              go.0,
              go.1,
              simp (e, new),
              inl (e, continue_all-Ran prog msg.tid wg1 out.1 s.filed),
              try_continue-IsSettled prog (suc (queued (lookup_or msg.tid [] wg.buffers))) msg.tid
                  wg1 out.1 (omega arith) s.filed
                  (λ j task ne l.
                    s.settled j task (sym (rw (lookup-insert msg.tid j, ne) refl) ∙ l)),
            )
        | inr e ↦ (
          record wg { active = msg.tid },
          out.1,
          simp e,
          inr (e, refl, refl),
          record { settled = s.settled; filed = s.filed },
        )
      ]
