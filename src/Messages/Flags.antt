-- ===== src/Messages/Flags.antt =====
-- The flags of a message are bits of its reference number (include/hypercomm/messaging/messaging.hpp).
use hypercomm.Base.{
  ℕ, ◌/◌, ◌%◌, bit_and, ◌≡◌, Bool, true, false, arith, ltb, bit_and-1, bit_and-2, bit_and-4,
  bit_and_digits, bit_or_digits,
}
use hypercomm.Messages.{
  Message, is_zero_copy, is_null, is_redn, set_flag, set_redn, set_zero_copy, null_mask, redn_mask,
  zero_copy_mask,
}

-- The digits that hold the flags.
pub null_digit : (ref : ℕ) → ltb 0 (bit_and ref null_mask) ≡ ltb 0 (ref % 2)
null_digit ref = ground (arith, bit_and-1 ref)

pub redn_digit : (ref : ℕ) → ltb 0 (bit_and ref redn_mask) ≡ ltb 0 (ref / 2 % 2)
redn_digit ref = ground (arith, bit_and-2 ref)

pub zero_copy_digit : (ref : ℕ) → ltb 0 (bit_and ref zero_copy_mask) ≡ ltb 0 (ref / 4 % 2)
zero_copy_digit ref = ground (arith, bit_and-4 ref)

module _ {P : Type 0} (m : Message P) where
  -- Setting or clearing the flag of reductions is read back, and the two other flags stay as they
  -- were.
  set_redn_reads :
      (value : Bool)
      → (is_redn (set_redn value m) ≡ value)
        × (is_null (set_redn value m) ≡ is_null m)
        × (is_zero_copy (set_redn value m) ≡ is_zero_copy m)
  unfolding is_redn set_redn is_null is_zero_copy set_flag
  set_redn_reads true =
      simp (null_digit, redn_digit, zero_copy_digit) (ground (arith, bit_or_digits m.ref 2))
  set_redn_reads false =
      simp (null_digit, redn_digit, zero_copy_digit) (ground (arith, bit_and_digits m.ref 65533))

  -- Likewise the flag of zero-copy messages.
  pub set_zero_copy_reads :
      (value : Bool)
      → (is_zero_copy (set_zero_copy value m) ≡ value)
        × (is_null (set_zero_copy value m) ≡ is_null m)
        × (is_redn (set_zero_copy value m) ≡ is_redn m)
  unfolding is_redn set_zero_copy is_null is_zero_copy set_flag
  set_zero_copy_reads true =
      simp (null_digit, redn_digit, zero_copy_digit) (ground (arith, bit_or_digits m.ref 4))
  set_zero_copy_reads false =
      simp (null_digit, redn_digit, zero_copy_digit) (ground (arith, bit_and_digits m.ref 65531))
