-- ===== src/Multistate.antt =====
-- include/hypercomm/components/multistate_component.hpp: the sets of inputs of a component whose
-- states come from a server. The port of an input is the key
-- of the state times `n_inputs` plus the position of the input, as `base_::accept` of
-- include/hypercomm/components/component.hpp chooses the acceptor by the remainder.
pub mod Waits
mod Tests
use hypercomm.Base.{
  ℕ, ◌/◌, ◌%◌, Bool, true, false, not, ◌&&◌, List, [], ◌∷◌, Option, none, some, get_elem?, set,
  replicate, is_some, nat_eq, nat_beq, Assoc, lookup, insert, if◌then◌else◌,
}

-- How `accept` ends: the port has no state, an assertion fails, the set waits, it is staged, or the
-- component of one input is staged at once, with the key of its state and the value.
pub data Accepted (V : Type 0) : Type 0 where
  refused : Accepted V
  fault : Accepted V
  waits : Assoc ℕ (List (Option V)) → Accepted V
  stages : Assoc ℕ (List (Option V)) → List (Option V) → Accepted V
  stages_directly : ℕ → V → Accepted V

module _ {V : Type 0} where
  abbrev pub is_ready : List (Option V) → Bool
  is_ready [] = true
  is_ready (v ∷ vs) = is_some v && is_ready vs

  -- The input of a set at a position.
  abbrev pub slot : ℕ → List (Option V) → Option V
  slot i vs = elim (get_elem? vs i) [ none ↦ none | some v ↦ v ]

  -- `find_gap`, with its assertion: `none` if that fails.
  unfoldable pub find_tag : ℕ → ℕ → Assoc ℕ (List (Option V)) → Option (Option (List (Option V)))
  find_tag i tag inbox = elim (lookup tag inbox) [
    | none ↦ some none
    | some vs ↦ if is_some (slot i vs) then none else some (some vs)
  ]

  -- `accept` with a value. `valid` says which keys have a state.
  unfoldable pub accept_value : ℕ → (ℕ → Bool) → Assoc ℕ (List (Option V)) → ℕ → V → Accepted V
  accept_value n_inputs valid inbox port v =
      if valid (port / n_inputs)
      then if nat_beq n_inputs 1
        then stages_directly (port / n_inputs) v
        else elim (find_tag (port % n_inputs) port inbox) [
          | none ↦ fault
          | some none ↦
              waits (insert port (set (replicate n_inputs none) (port % n_inputs) (some v)) inbox)
          | some (some vs) ↦
              let full = set vs (port % n_inputs) (some v) in
              if is_ready full
              then stages (insert port full inbox) full
              else waits (insert port full inbox)
        ]
      else refused
