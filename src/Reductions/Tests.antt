-- ===== src/Reductions/Tests.antt =====
-- A reduction of three inputs, one of which is invalidated.
use hypercomm.Base.{
  ℕ, suc, ◌+◌, ◌*◌, ◌≡◌, refl, false, List, [], ◌∷◌, ◌++◌, Option, none, some, arith, length, Assoc,
  nat_eq,
}
use hypercomm.Reductions.{
  Contribution, Reducer, reduced, new_reducer, feed, action, affected_by, port_affected_by,
}
use hypercomm.Reductions.Gather.{total, reduces_once}
use hypercomm.Reductions.Stamps.{port_affected_by-affected_by}

abbrev sum_all : List ℕ → ℕ
sum_all [] = 0
sum_all (x ∷ xs) = x + sum_all xs

abbrev scaled : ℕ → List ℕ → Option ℕ
scaled factor args = some (factor * sum_all args)

abbrev early : List (Option (Contribution ℕ ℕ ℕ))
early = some (record { msg = some 4; combiner = none; callback = some 9 }) ∷ none ∷ []

abbrev late : Option (Contribution ℕ ℕ ℕ)
late = some (record { msg = some 5; combiner = some 2; callback = some 8 })

reduces_once_example :
    (r r' : Reducer ℕ ℕ ℕ ℕ) × (feed scaled (new_reducer 7 0 none (suc (length early))) early
      ≡ some r)
    × (action scaled r late ≡ reduced r' (total scaled 2 (early ++ late ∷ [])))
    × (r'.devs ≡ [])
    × (r'.persistent ≡ false)
reduces_once_example = reduces_once scaled 7 0 none early late 2 refl

abbrev epochs : Assoc ℕ ℕ
epochs = (3, 1) ∷ (7, 4) ∷ []

port_affected_by-affected_by_example :
    port_affected_by (λ g. g + 100) 107 5 epochs ≡ affected_by 7 5 epochs
port_affected_by-affected_by_example =
    port_affected_by-affected_by (λ g. g + 100) 7 5 epochs
      ((λ e. absurd (omega arith)), ((λ e. refl), tt))
