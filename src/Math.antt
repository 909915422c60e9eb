-- ===== src/Math.antt =====
-- include/hypercomm/core/math.hpp: hash combination and the algebra of binary trees.
-- Nodes are signed integers; the source's types (`int`, `std::int64_t`) are wide enough for the
-- tree sizes that occur, and `BinaryTree` bounds the children by the size.
pub mod BinaryTree
mod Tests
use hypercomm.Base.{ℕ, ◌+◌, ◌*◌, ◌/◌, ◌%◌, ◌^◌, Bool, ◌&&◌, List, [], ◌∷◌, ◌++◌, if◌then◌else◌}
use hypercomm.Base.Int.{ℤ, pos, negsuc, ◌+ℤ◌, ◌-ℤ◌, ◌*ℤ◌, ◌/ℤ◌, ltb_ℤ, leb_ℤ}

-- `std::size_t`, of 64 bits.
abbrev pub size_mod : ℕ
size_mod = 2 ^ 64

-- `lhs + 0x9e3779b9 + (rhs << 6) + (rhs >> 2)`
unfoldable pub hash_combine : ℕ → ℕ → ℕ
hash_combine lhs rhs = (lhs + 0x9e3779b9 + (rhs * 2 ^ 6) % size_mod + rhs / 2 ^ 2) % size_mod

-- The loop of `hash_iterable`; `hasher` is the hash of an element.
hash_from {ℓ} : {A : Type ℓ} → (A → ℕ) → ℕ → List A → ℕ
hash_from hasher seed [] = seed
hash_from hasher seed (x ∷ xs) = hash_from hasher (hash_combine seed (hasher x)) xs

unfoldable pub hash_iterable {ℓ} : {A : Type ℓ} → (A → ℕ) → List A → ℕ
unfolding hash_from
hash_iterable hasher xs = hash_from hasher 0 xs

unfoldable pub left_child : ℤ → ℤ
unfolding ◌+ℤ◌ ◌*ℤ◌
left_child i = pos 2 *ℤ i +ℤ pos 1

unfoldable pub right_child : ℤ → ℤ
unfolding ◌+ℤ◌ ◌*ℤ◌
right_child i = pos 2 *ℤ i +ℤ pos 2

unfoldable pub parent : ℤ → ℤ
unfolding ◌-ℤ◌ ◌/ℤ◌
parent i = if ltb_ℤ (pos 0) i then (i -ℤ pos 1) /ℤ 2 else negsuc 0

-- `0 <= i && i < max`
abbrev pub within : ℤ → ℤ → Bool
within i max = leb_ℤ (pos 0) i && ltb_ℤ i max

unfoldable pub leaves : ℤ → ℤ → List ℤ
unfolding left_child right_child
leaves which max =
    (if within (left_child which) max then left_child which ∷ [] else [])
    ++ (if within (right_child which) max then right_child which ∷ [] else [])

unfoldable pub num_leaves : ℤ → ℤ
unfolding ◌+ℤ◌ ◌/ℤ◌
num_leaves n = (n +ℤ pos 1) /ℤ 2
