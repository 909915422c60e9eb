-- ===== src/Components/Inbox.antt =====
-- include/hypercomm/components/inbox.hpp: the partial input sets of a component, newest first.
pub mod Join
pub mod Store
use hypercomm.Base.{
  ℕ, zero, suc, ◌≡◌, Bool, true, false, ◌&&◌, List, [], ◌∷◌, Option, none, some, is_some, get_elem?,
  not, if◌then◌else◌,
}
use hypercomm.Components.{Context}

-- A set has a place for each input; a null value is `none`.
abbrev pub InSet : Type 0 → Type 0
InSet V = List (Option V)

abbrev pub Incoming : Type 0 → Type 0
Incoming V = List (InSet V)

module _ {V : Type 0} where
  -- `std::get<I>(set)` holds a value.
  abbrev pub has : InSet V → ℕ → Bool
  has [] i = false
  has (v ∷ vs) zero = is_some v
  has (v ∷ vs) (suc i) = has vs i

  unfoldable pub is_ready : InSet V → Bool
  is_ready [] = true
  is_ready (v ∷ vs) = is_some v && is_ready vs

  -- The first ready set from the front, `none` for the end.
  unfoldable pub find_ready : Incoming V → Option ℕ
  unfolding is_ready
  find_ready [] = none
  find_ready (s ∷ ss) =
      if is_ready s then some 0 else elim (find_ready ss) [ none ↦ none | some k ↦ some (suc k) ]

  -- The first set from the back that lacks input `i`.
  unfoldable pub find_gap : ℕ → Incoming V → Option ℕ
  find_gap i [] = none
  find_gap i (s ∷ ss) = elim (find_gap i ss) [
    | some k ↦ some (suc k)
    | none ↦ if has s i then none else some 0
  ]

  module _ {E D : Type 0} (ctx : Context E D V) where
    return_value : Option V → E → E
    return_value none env = env
    return_value (some v) env = ctx.try_return v env

    -- Gives back the values of a set, in the order of the inputs.
    unfoldable pub empty_buffer : InSet V → E → E
    unfolding return_value
    empty_buffer [] env = env
    empty_buffer (v ∷ vs) env = empty_buffer vs (return_value v env)

    return_all : Incoming V → E → E
    return_all [] env = env
    return_all (s ∷ ss) env = return_all ss (empty_buffer s env)

    -- Returns all unused values and clears the sets.
    unfoldable pub empty_buffers : Incoming V → E → Incoming V × E
    unfolding return_all empty_buffer
    empty_buffers ss env = ([], return_all ss env)
