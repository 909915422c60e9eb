-- ===== src/Math/BinaryTree.antt =====
-- The children and the parent of include/hypercomm/core/math.hpp are inverse to one another.
use hypercomm.Base.{
  ℕ, zero, suc, ◌+◌, ◌*◌, ◌/◌, ◌≡◌, refl, ◌⊎◌, inl, inr, ◌↔◌, arith, Bool-cases, nat_beq,
  nat_beq_iff, sym, ap, ◌∙◌, false, ◌%◌,
}
use hypercomm.Base.Int.{pos, negsuc}
use hypercomm.Math.{left_child, right_child, parent}

pub left_child-pos : (i : ℕ) → left_child (pos i) ≡ pos (2 * i + 1)
unfolding left_child
left_child-pos i = ground arith

pub right_child-pos : (i : ℕ) → right_child (pos i) ≡ pos (2 * i + 2)
unfolding right_child
right_child-pos i = ground arith

pub parent-zero : parent (pos 0) ≡ negsuc 0
unfolding parent
parent-zero = refl

pub parent-suc : (i : ℕ) → parent (pos (suc i)) ≡ pos (i / 2)
unfolding parent
parent-suc i = ground arith

pub pos-injective : {a b : ℕ} → pos a ≡ pos b → a ≡ b
pos-injective h = cc

half-cases : (j : ℕ) → (2 * (j / 2) + 1 ≡ suc j) ⊎ (2 * (j / 2) + 2 ≡ suc j)
half-cases j = elim (Bool-cases (nat_beq (j % 2) 0)) [
  | inl e ↦ inl (omega (arith, (nat_beq_iff (j % 2) 0).0 e))
  | inr e ↦ inr (omega (arith, odd j e))
]
  where
    odd : (n : ℕ) → nat_beq (n % 2) 0 ≡ false → n % 2 ≡ 1
    odd n h = ground arith

-- A node is the parent of another exactly when the other is one of its two children.
pub parent-iff-child :
    (i j : ℕ)
    → (parent (pos j) ≡ pos i) ↔ ((left_child (pos i) ≡ pos j) ⊎ (right_child (pos i) ≡ pos j))
parent-iff-child i zero = (
  λ h. absurd (cc (parent-zero)),
  λ h. elim h [
    | inl l ↦ absurd (omega (arith, pos-injective (sym (left_child-pos i) ∙ l)))
    | inr r ↦ absurd (omega (arith, pos-injective (sym (right_child-pos i) ∙ r)))
  ],
)
parent-iff-child i (suc j) = (
  λ h.
      let e = pos-injective (sym (parent-suc j) ∙ h) in
      elim (half-cases j) [
        | inl l ↦ inl (left_child-pos i ∙ ap pos (omega arith))
        | inr r ↦ inr (right_child-pos i ∙ ap pos (omega arith))
      ],
  λ h.
      parent-suc j
      ∙ ap pos (elim h [
        | inl l ↦ omega (arith, pos-injective (sym (left_child-pos i) ∙ l))
        | inr r ↦ omega (arith, pos-injective (sym (right_child-pos i) ∙ r))
      ]),
)
