-- ===== src/Manageable.antt =====
-- include/hypercomm/tree_builder/manageable.hpp: how a chare of a managed tree takes changes of its
-- children, while reductions over the tree are under way. `I` is the type of the indices, `G` that
-- of the imprintables, and `hash` hashes an imprintable. What the chare calls of its locality is
-- the record `Calls`, over the state `E` of the ports and components.
pub mod Resolve
mod Tests
use hypercomm.Base.{
  ℕ, zero, suc, ◌+◌, Bool, true, false, ◌&&◌, List, [], ◌∷◌, ◌++◌, Option, none, some, length, map,
  nat_eq, Eq, ◌==◌, Assoc, contains, index_of, set, erase_idx, get_elem?, if◌then◌else◌, ltb,
}
use hypercomm.Reductions.{affected_by, port_affected_by}

pub data Change (I : Type 0) : Type 0 where
  delete : Change I
  replace : I → Change I

pub record Transaction (I G : Type 0) : Type 0 where
  pub change : Change I
  pub from : I
  pub since : Assoc G ℕ

-- A reduction port.
pub record Port (I : Type 0) : Type 0 where
  pub identity : ℕ
  pub epoch : ℕ
  pub index : I

-- A reducer among the components.
pub record Underway (G : Type 0) : Type 0 where
  pub id : ℕ
  pub gen : G
  pub epoch : ℕ

-- The reduction ports that are open, `receive` of a null value at a port, `open` of a port under
-- another index after it was erased, the reducers, and the increment of `n_ustream` of a reducer.
pub record Calls (E I G : Type 0) : Type 0 where
  pub entry_ports : E → List (Port I)
  pub receive_null : Port I → E → E
  pub reopen : Port I → I → E → E
  pub reducers : E → List (Underway G)
  pub widen : ℕ → E → E
  pub connect : Port I → ℕ → ℕ → E → E

pub record Chare (E I G : Type 0) : Type 0 where
  pub downstream : List I
  pub staged : List (Transaction I G)
  pub env : E

module _ {E I G : Type 0} ⦃e : Eq I⦄ ⦃g : Eq G⦄ (hash : G → ℕ) (calls : Calls E I G) where
  -- The loop of `affect_ports`, over a copy of the ports.
  unfoldable pub affect_each : I → Assoc G ℕ → (Port I → E → E) → List (Port I) → E → E
  affect_each idx since fn [] env = env
  affect_each idx since fn (port ∷ ports) env = affect_each idx since fn ports (
      if port_affected_by hash port.identity port.epoch since && port.index == idx
      then fn port env
      else env)

  unfoldable pub affect_ports : I → Assoc G ℕ → (Port I → E → E) → E → E
  affect_ports idx since fn env = affect_each idx since fn (calls.entry_ports env) env

  -- The first staged transaction whose index is among the children.
  unfoldable pub find_ready : List I → List (Transaction I G) → Option ℕ
  find_ready down [] = none
  find_ready down (t ∷ staged) =
      if contains t.from down
      then some 0
      else elim (find_ready down staged) [ none ↦ none | some k ↦ some (suc k) ]

  -- The `switch` on the transaction's type.
  unfoldable pub apply_change : Transaction I G → Chare E I G → Chare E I G
  apply_change t s = elim t.change [
    | delete ↦ record s {
      downstream = erase_idx s.downstream (index_of t.from s.downstream);
      env = affect_ports t.from t.since calls.receive_null s.env;
    }
    | replace next ↦ record s {
      downstream = set s.downstream (index_of t.from s.downstream) next;
      env = affect_ports t.from t.since (λ port env. calls.reopen port next env) s.env;
    }
  ]

  unfoldable pub resolve_transactions : ℕ → Chare E I G → Chare E I G
  resolve_transactions zero s = s
  resolve_transactions (suc fuel) s = elim (find_ready s.downstream s.staged) [
    | none ↦ s
    | some k ↦ elim (get_elem? s.staged k) [
      | none ↦ s
      | some t ↦
          resolve_transactions fuel (record (apply_change t s) { staged = erase_idx s.staged k })
    ]
  ]

  -- The reducers that a stamp affects get one more input, at a port for the new child.
  unfoldable pub join_reducers : I → Assoc G ℕ → List (Underway G) → E → E
  join_reducers idx since [] env = env
  join_reducers idx since (r ∷ reducers) env = join_reducers idx since reducers (
      if affected_by r.gen r.epoch since
      then calls.connect (record { identity = hash r.gen; epoch = r.epoch; index = idx }) r.id 0
          (calls.widen r.id env)
      else env)

  unfoldable pub add_downstream : I → Assoc G ℕ → Chare E I G → Chare E I G
  add_downstream idx since s = record s {
    downstream = s.downstream ++ idx ∷ [];
    env = join_reducers idx since (calls.reducers s.env) s.env;
  }

  unfoldable pub add_all : List I → Assoc G ℕ → Chare E I G → Chare E I G
  add_all [] since s = s
  add_all (idx ∷ to) since s = add_all to since (add_downstream idx since s)

  -- What `replace_downstream` stages.
  unfoldable pub stage : I → List I → Assoc G ℕ → Chare E I G → Chare E I G
  stage from [] since s = record s {
    staged = s.staged ++ record { change = delete; from = from; since = since } ∷ [];
  }
  stage from (next ∷ to) since s =
      let s' = add_all to since s in
      record s' {
        staged = s'.staged ++ record { change = replace next; from = from; since = since } ∷ [];
      }

  unfoldable pub replace_downstream : I → List I → Assoc G ℕ → Chare E I G → Chare E I G
  replace_downstream from to since s =
      let s' = stage from to since s in resolve_transactions (suc (length s'.staged)) s'
