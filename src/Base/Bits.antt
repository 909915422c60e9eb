-- ===== src/Base/Bits.antt =====
-- The lowest digits of `bit_and` and `bit_or`, by which the flags of a number are read.
use Prim.Native.Nat.{
  ℕ, zero, suc, ◌+◌, ◌*◌, ◌/◌, ◌%◌, ◌≤◌, min, max, digits, bitwise, bit_and, bit_or,
  bit_and-bitwise, bit_or-bitwise,
}
use mathlib.Core.Path.{◌≡◌, refl}
use native.Mathlib.Omega.{arith}

module _ (z : ℕ → ℕ) (f : ℕ → ℕ → ℕ) where
  -- How many digits are to go makes no difference, if they are enough.
  digits_enough : (n m a b : ℕ) → a ≤ n → a ≤ m → digits z f n a b ≡ digits z f m a b
  digits_enough zero zero zero b h k = refl
  digits_enough zero (suc m) zero b h k = refl
  digits_enough (suc n) zero zero b h k = refl
  digits_enough (suc n) (suc m) zero b h k = refl
  digits_enough zero m (suc a) b h k = absurd (omega arith)
  digits_enough (suc n) zero (suc a) b h k = absurd (omega arith)
  digits_enough (suc n) (suc m) (suc a) b h k =
      let halves = digits_enough n m (suc a / 2) (b / 2) (omega arith) (omega arith) in
      omega (arith, halves)

  module _ (stop : (b : ℕ) → z b ≡ z (b / 2) * 2 + f 0 (b % 2)) where
    bitwise_step : (a b : ℕ) → bitwise z f a b ≡ bitwise z f (a / 2) (b / 2) * 2 + f (a % 2) (b % 2)
    bitwise_step zero b = stop b
    bitwise_step (suc a) b =
        omega (arith, digits_enough a (suc a / 2) (suc a / 2) (b / 2) (omega arith) (omega arith))

pub bit_and-step : (a b : ℕ) → bit_and a b ≡ bit_and (a / 2) (b / 2) * 2 + min (a % 2) (b % 2)
bit_and-step a b = omega (
  arith,
  bit_and-bitwise a b,
  bit_and-bitwise (a / 2) (b / 2),
  bitwise_step (λ b. zero) min (λ b. omega arith) a b,
)

-- A number and zero share no digit.
bit_and-zero : (bound a : ℕ) → a ≤ bound → bit_and a 0 ≡ 0
bit_and-zero bound zero h = refl
bit_and-zero zero (suc a) h = absurd (omega arith)
bit_and-zero (suc bound) (suc a) h =
    omega (arith, bit_and-step (suc a) 0, bit_and-zero bound (suc a / 2) (omega arith))

pub bit_and-1 : (a : ℕ) → bit_and a 1 ≡ a % 2
bit_and-1 a = omega (arith, bit_and-step a 1, bit_and-zero (a / 2) (a / 2) (omega arith))

pub bit_and-2 : (a : ℕ) → bit_and a 2 ≡ a / 2 % 2 * 2
bit_and-2 a = omega (arith, bit_and-step a 2, bit_and-1 (a / 2))

pub bit_and-4 : (a : ℕ) → bit_and a 4 ≡ a / 4 % 2 * 4
bit_and-4 a = omega (arith, bit_and-step a 4, bit_and-2 (a / 2))

pub bit_or-step : (a b : ℕ) → bit_or a b ≡ bit_or (a / 2) (b / 2) * 2 + max (a % 2) (b % 2)
bit_or-step a b = omega (
  arith,
  bit_or-bitwise a b,
  bit_or-bitwise (a / 2) (b / 2),
  bitwise_step (λ b. b) max (λ b. omega arith) a b,
)

-- The three lowest digits.
pub bit_and_digits :
    (a b : ℕ)
    → (bit_and a b % 2 ≡ min (a % 2) (b % 2))
      × (bit_and a b / 2 % 2 ≡ min (a / 2 % 2) (b / 2 % 2))
      × (bit_and a b / 4 % 2 ≡ min (a / 4 % 2) (b / 4 % 2))
bit_and_digits a b =
    omega
      (arith, bit_and-step a b, bit_and-step (a / 2) (b / 2), bit_and-step (a / 2 / 2) (b / 2 / 2))

pub bit_or_digits :
    (a b : ℕ)
    → (bit_or a b % 2 ≡ max (a % 2) (b % 2))
      × (bit_or a b / 2 % 2 ≡ max (a / 2 % 2) (b / 2 % 2))
      × (bit_or a b / 4 % 2 ≡ max (a / 4 % 2) (b / 4 % 2))
bit_or_digits a b =
    omega (arith, bit_or-step a b, bit_or-step (a / 2) (b / 2), bit_or-step (a / 2 / 2) (b / 2 / 2))
