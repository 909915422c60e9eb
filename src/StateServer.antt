-- ===== src/StateServer.antt =====
-- include/hypercomm/components/state_server.hpp: states by keys, which components take and give
-- back, and the components that are invalidated when there are none left. `S` is the type of the
-- states, and `C` that of the continuations. `told` lists the components that were handed to the
-- locality's `invalidate_component`, newest last. A component that this destroys erases a
-- subscription that it still has, by the destructor of `multistate_component` in
-- include/hypercomm/components/multistate_component.hpp; which components are destroyed is a
-- parameter.
pub mod Ends
mod Tests
use hypercomm.Base.{
  ℕ, zero, suc, ◌+◌, Bool, true, false, ◌&&◌, not, List, [], ◌∷◌, ◌++◌, Option, none, some, length,
  null, nat_eq, nat_beq, ◌==◌, Assoc, lookup, insert, erase, contains, is_some, if◌then◌else◌,
}

pub record StateServer (S C : Type 0) : Type 0 where
  pub subscribers : List ℕ
  pub avail : Assoc ℕ S
  pub is_inserting : Bool
  pub continuations : Assoc ℕ C
  pub told : List ℕ

-- `std::find` of a subscriber, and what `erase` at its result leaves.
unfoldable pub erase_first : ℕ → List ℕ → List ℕ
erase_first member [] = []
erase_first member (m ∷ members) = if m == member then members else m ∷ erase_first member members

-- The loop of `check_status_`: whom it invalidates. Each round removes a subscriber, and the
-- destructor of one that is destroyed removes another subscription of it.
unfoldable pub notified : ℕ → (ℕ → Bool) → ℕ → List ℕ → List ℕ
notified zero destroys exclude members = []
notified (suc fuel) destroys exclude [] = []
notified (suc fuel) destroys exclude (member ∷ members) =
    let rest = notified fuel destroys exclude members in
    let others = if destroys member then erase_first member members else members in
    let told = notified fuel destroys exclude others in
    if exclude == member then rest else member ∷ told

module _ {S C : Type 0} where
  abbrev pub new_server : StateServer S C
  new_server = record {
    subscribers = [];
    avail = [];
    is_inserting = false;
    continuations = [];
    told = [];
  }

  abbrev pub emplace_subscriber : ℕ → StateServer S C → StateServer S C
  emplace_subscriber member s = record s { subscribers = s.subscribers ++ member ∷ [] }

  unfoldable pub erase_subscriber : ℕ → StateServer S C → StateServer S C × Bool
  erase_subscriber member s =
      if contains member s.subscribers
      then (record s { subscribers = erase_first member s.subscribers }, true)
      else (s, false)

  abbrev pub done : StateServer S C → Bool
  done s = null s.avail && not s.is_inserting

  unfoldable pub check_status : (ℕ → Bool) → ℕ → StateServer S C → StateServer S C
  check_status destroys exclude s =
      if done s
      then record s {
        subscribers = [];
        told = s.told ++ notified (length s.subscribers) destroys exclude s.subscribers;
      }
      else s

  -- Identifiers of components start from one, so that zero excludes none.
  unfoldable pub done_inserting : (ℕ → Bool) → StateServer S C → StateServer S C
  done_inserting destroys s = check_status destroys 0 (record s { is_inserting = false })

  -- A key that is there already is the failed assertion.
  unfoldable pub put_state : ℕ → S → StateServer S C → Option (StateServer S C)
  put_state key val s =
      if is_some (lookup key s.avail)
      then none
      else some (record s { avail = insert key val s.avail; is_inserting = true })

  abbrev pub find_state : ℕ → StateServer S C → Option S
  find_state key s = lookup key s.avail

  -- `acquire_state` at the position that `find_state` found; the end is no such position.
  unfoldable pub acquire_state : (ℕ → Bool) → ℕ → ℕ → StateServer S C → Option (S × StateServer S C)
  acquire_state destroys member key s = elim (find_state key s) [
    | none ↦ none
    | some val ↦ some (val, check_status destroys member (record s { avail = erase key s.avail }))
  ]

  -- `release_state`: the continuation that is called with the state, if one waits. `call` is its
  -- effect on the server, from the table that still has it.
  unfoldable pub release_state :
      (C → ℕ → S → StateServer S C → StateServer S C) → ℕ → S → StateServer S C → StateServer S C
  release_state call key val s = elim (lookup key s.continuations) [
    | none ↦ s
    | some k ↦ let s' = call k key val s in record s' { continuations = erase key s'.continuations }
  ]

  unfoldable pub put_continuation : ℕ → C → StateServer S C → Option (StateServer S C)
  put_continuation tag k s =
      if is_some (lookup tag s.continuations)
      then none
      else some (record s { continuations = insert tag k s.continuations })
