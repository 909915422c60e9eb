-- ===== src/Workgroup/Histories.antt =====
-- Workgroups as src/hypercomm/tasking/workgroup.cc leaves them after any calls: they can always
-- migrate.
use hypercomm.Base.{ℕ, ◌<◌, ◌≡◌, Bool, List, [], Option, none, some, length, nat_eq}
use hypercomm.Workgroup.{
  Task, Payload, TaskMessage, Program, Workgroup, generate_id, resume, create,
}
use hypercomm.Workgroup.Migration.{word, Memory, TaskClass, Image, pack, unpack}
use hypercomm.Workgroup.Moved.{IsClassed, IsCodec, AllFit}

-- The program's tasks stay tasks of their class: a new one is of the class that the message names,
-- and a continuation leaves its task one of its class.
pub record KeepsClass {E S X : Type 0} (records : List (TaskClass S X)) (prog : Program E S Memory)
    : Type 0 where
  pub creates :
      (kind : ℕ) (p : Payload Memory) (env : E)
      → kind < length records
      → IsClassed records (prog.creator kind p env).0
  pub continues :
      (id : ℕ) (t : Task S) (p : Payload Memory) (env : E)
      → IsClassed records t
      → IsClassed records (prog.continuation id t p env).0

module _ {E S X : Type 0} (prog : Program E S Memory) (records : List (TaskClass S X))
    (keeps : KeepsClass records prog) where
  abbrev Fit : Workgroup S Memory → Type 0
  Fit wg = AllFit records wg.tasks

  -- What a rejected or accepted message leaves.
  abbrev FitAfter : Option (Bool × Workgroup S Memory × E) → Type 0
  FitAfter none = Unit
  FitAfter (some (keep, wg, env)) = Fit wg

  abbrev FitCreated : Option (Workgroup S Memory × E) → Type 0
  FitCreated none = Unit
  FitCreated (some (wg, env)) = Fit wg

  module _ (alloc : ℕ → ℕ) (small : (n : ℕ) → alloc n < word) (codec : IsCodec records) where
    -- What a workgroup may have gone through: calls of its entry methods with messages for classes
    -- that are registered, new identifiers, and migrations.
    pub data Reach : Workgroup S Memory → Type 0 where
      fresh :
          (active : ℕ) → Reach (record { active = active; last_task = 0; tasks = []; buffers = [] })
      creates :
          {wg wg' : Workgroup S Memory} {env' : E} (msg : TaskMessage Memory) (env : E)
          → Reach wg
          → msg.kind < length records
          → create prog msg wg env ≡ some (wg', env')
          → Reach wg'
      resumes :
          {wg : Workgroup S Memory} (tid : ℕ) (p : Payload Memory) (env : E)
          → Reach wg
          → Reach (resume prog tid p wg env).0
      names : {wg : Workgroup S Memory} (host : ℕ) → Reach wg → Reach (generate_id host wg).1
      migrates :
          {wg wg' : Workgroup S Memory} {i : Image X} {n' : ℕ} (unset n : ℕ)
          → Reach wg
          → pack records wg ≡ some i
          → unpack records alloc unset n i ≡ some (wg', n')
          → Reach wg'
