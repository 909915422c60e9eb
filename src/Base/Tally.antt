-- ===== src/Base/Tally.antt =====
-- How many numbers below a bound pass a test.
use Prim.Native.Nat.{ℕ, zero, suc, ◌+◌, ◌<◌, ◌≤◌}
use mathlib.Core.Path.{◌≡◌, refl}
use mathlib.Core.Bool.{Bool, true, false}
use native.Mathlib.Omega.{arith}
use hypercomm.Base.Tests.{if◌then◌else◌, ◌==◌, nat_eq, nat_beq_iff}

unfoldable pub tally : (ℕ → Bool) → ℕ → ℕ
tally f zero = 0
tally f (suc n) = (if f n then 1 else 0) + tally f n

pub tally-le : (f : ℕ → Bool) (n : ℕ) → tally f n ≤ n
unfolding tally
tally-le f zero = omega arith
tally-le f (suc n) = ground (arith, tally-le f n)

module _ (f g : ℕ → Bool) where
  pub tally-congruent : ((a : ℕ) → f a ≡ g a) → (n : ℕ) → tally f n ≡ tally g n
  unfolding tally
  tally-congruent same zero = refl
  tally-congruent same (suc n) = ground (arith, same n, tally-congruent same n)

  module _ (b : ℕ) (cleared : (a : ℕ) → g a ≡ (if b == a then false else f a)) where
    tally_below : (n : ℕ) → n ≤ b → tally g n ≡ tally f n
    unfolding tally
    tally_below zero h = refl
    tally_below (suc n) h = ground (arith, cleared n, nat_beq_iff b n, tally_below n)

    -- A test that fails at one more number counts one less.
    pub tally-clear : f b ≡ true → (n : ℕ) → b < n → suc (tally g n) ≡ tally f n
    unfolding tally
    tally-clear was zero h = absurd (omega arith)
    tally-clear was (suc n) h =
        ground (arith, cleared n, nat_beq_iff b n, tally_below n, tally-clear was n, was)
