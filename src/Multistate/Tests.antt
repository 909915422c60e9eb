-- ===== src/Multistate/Tests.antt =====
-- A component with two inputs, whose values for the state 4 come at the ports 8 and 9.
use hypercomm.Base.{
  ℕ, ◌≢◌, ◌≡◌, refl, true, List, [], ◌∷◌, Option, some, none, Assoc, arith, lookup, insert, nat_eq,
}
use hypercomm.Multistate.{accept_value, find_tag, stages, stages_directly}
use hypercomm.Multistate.Waits.{arrive, never_stages}

abbrev first_come : Assoc ℕ (List (Option ℕ))
first_come = (8, some 30 ∷ none ∷ []) ∷ []

first-arrive : arrive 2 (λ key. true) [] ((8, 30) ∷ []) ≡ some first_come
unfolding arrive accept_value find_tag lookup insert
first-arrive = refl

abbrev both : List (Option ℕ)
both = some 30 ∷ some 31 ∷ []

never_stages_example :
    (accept_value 2 (λ key. true) first_come 9 31 ≢ stages ((8, both) ∷ []) both)
    × (accept_value 2 (λ key. true) first_come 9 31 ≢ stages_directly 4 31)
never_stages_example =
    never_stages 2 (λ key. true) ((8, 30) ∷ []) first_come (omega arith) first-arrive 9 31
      ((8, both) ∷ []) both 4
