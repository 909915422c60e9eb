-- ===== src/Futures/Tests.antt =====
-- Futures and values are numbers: the value of the second future was there before, so the third one
-- is not requested, and its value waits.
use hypercomm.Base.{ℕ, ◌≡◌, refl, some, Option, [], ◌∷◌, List, nat_eq}
use hypercomm.Futures.{Waiter, Ports, wait_any}
use hypercomm.Futures.First.{Gives, wait_any-values_of, values_of, left_over}

abbrev available : List (ℕ × ℕ)
available = (5, 50) ∷ (8, 80) ∷ []

abbrev futures : List ℕ
futures = 7 ∷ 8 ∷ 9 ∷ []

abbrev arrivals : List (ℕ × ℕ)
arrivals = (9, 90) ∷ (7, 70) ∷ []

wait_any-values_of_example :
    (result : Option (ℕ × ℕ)) × (ports : Ports ℕ ℕ) × (w : Waiter ℕ ℕ) × (wait_any available futures
        arrivals
      ≡ some (result, ports, w))
    × (ports.waiting ≡ left_over available futures arrivals)
    × Gives futures (values_of available futures arrivals) result w
wait_any-values_of_example =
    wait_any-values_of available futures arrivals (refl, (refl, (refl, tt)))
