-- ===== src/Components/Inbox/Join.antt =====
-- The sets of an inbox seen as one queue for each input: a value joins its queue at the end, and
-- a set that becomes complete holds the heads of all queues.
use mathlib.Core.Path.{subst}
use hypercomm.Base.{
  ℕ, zero, suc, ◌<◌, ◌≡◌, refl, sym, ◌∙◌, inl, inr, true, false, List, [], ◌∷◌, ◌++◌, none, some,
  arith, nat_beq, nat_beq_iff, nat_beq-suc, nat_beq-zero_suc, nat_beq-suc_zero, if◌then◌else◌,
  length, get_elem?, set, All, append-nil, append_assoc, All-get_elem?, All-set, Bool-cases,
  Option-cases,
}
use hypercomm.Components.Inbox.{InSet, Incoming, has, find_gap}

module _ {V : Type 0} where
  -- The value of a set for an input, if any.
  abbrev pub value : InSet V → ℕ → List V
  value [] j = []
  value (none ∷ s) zero = []
  value (some v ∷ s) zero = v ∷ []
  value (x ∷ s) (suc j) = value s j

  -- The queue of an input, oldest first.
  abbrev pub column : ℕ → Incoming V → List V
  column j [] = []
  column j (s ∷ ss) = column j ss ++ value s j

  -- A set has an input only if all older sets do.
  abbrev pub IsStair : Incoming V → Type 0
  IsStair [] = Unit
  IsStair (s ∷ ss) = ((i : ℕ) → has s i ≡ true → All (λ t. has t i ≡ true) ss) × IsStair ss

  pub find_gap-none :
      (i : ℕ) (ss : Incoming V) → find_gap i ss ≡ none → All (λ t. has t i ≡ true) ss
  unfolding find_gap
  find_gap-none i [] h = tt
  find_gap-none i (s ∷ ss) h = elim (Option-cases (find_gap i ss)) [
    | inl out ↦ (ground arith, find_gap-none i ss out)
    | inr (k, f) ↦ absurd (ground arith)
  ]

  pub find_gap-some :
      (i k : ℕ) (ss : Incoming V)
      → find_gap i ss ≡ some k
      → (s : InSet V) × (get_elem? ss k ≡ some s) × (has s i ≡ false)
  unfolding find_gap
  find_gap-some i k [] h = cc
  find_gap-some i zero (s ∷ ss) h = (s, refl, ground arith)
  find_gap-some i (suc k) (s ∷ ss) h = find_gap-some i k ss (ground arith)

  pub value-none : (s : InSet V) (i : ℕ) → has s i ≡ false → value s i ≡ []
  value-none [] i h = refl
  value-none (none ∷ s) zero h = refl
  value-none (some v ∷ s) zero h = cc
  value-none (none ∷ s) (suc i) h = value-none s i h
  value-none (some v ∷ s) (suc i) h = value-none s i h

  value-set :
      (s : InSet V) (i j : ℕ) (v : V)
      → i < length s
      → value (set s i (some v)) j ≡ (if nat_beq i j then v ∷ [] else value s j)
  value-set [] i j v h = absurd (omega arith)
  value-set (x ∷ s) zero zero v h = refl
  value-set (none ∷ s) zero (suc j) v h = rw (nat_beq-zero_suc j)
  value-set (some w ∷ s) zero (suc j) v h = rw (nat_beq-zero_suc j)
  value-set (none ∷ s) (suc i) zero v h = rw (nat_beq-suc_zero i)
  value-set (some w ∷ s) (suc i) zero v h = rw (nat_beq-suc_zero i)
  value-set (none ∷ s) (suc i) (suc j) v h = rw (nat_beq-suc i j) (value-set s i j v (omega arith))
  value-set (some w ∷ s) (suc i) (suc j) v h =
      rw (nat_beq-suc i j) (value-set s i j v (omega arith))

  pub has-set : (s : InSet V) (i j : ℕ) (v : V) → has s j ≡ true → has (set s i (some v)) j ≡ true
  has-set [] i j v h = h
  has-set (x ∷ s) zero zero v h = refl
  has-set (x ∷ s) zero (suc j) v h = h
  has-set (x ∷ s) (suc i) zero v h = h
  has-set (x ∷ s) (suc i) (suc j) v h = has-set s i j v h

  pub has-set_ne :
      (s : InSet V) (i j : ℕ) (v : V) → nat_beq i j ≡ false → has (set s i (some v)) j ≡ has s j
  has-set_ne [] i j v h = refl
  has-set_ne (x ∷ s) zero zero v h = cc
  has-set_ne (x ∷ s) zero (suc j) v h = refl
  has-set_ne (x ∷ s) (suc i) zero v h = refl
  has-set_ne (x ∷ s) (suc i) (suc j) v h = has-set_ne s i j v (sym (nat_beq-suc i j) ∙ h)

  pub value-set_append :
      (s : InSet V) (i j : ℕ) (v : V)
      → i < length s
      → has s i ≡ false
      → value (set s i (some v)) j ≡ value s j ++ (if nat_beq i j then v ∷ [] else [])
  value-set_append s i j v h lacks = elim (Bool-cases (nat_beq i j)) [
    | inl e ↦
        let same = (nat_beq_iff i j).0 e in
        rw (value-set s i j v h, e, value-none s j (subst (λ x. has s x ≡ false) same lacks))
    | inr e ↦ rw (value-set s i j v h, e, append-nil)
  ]

  newer-lacks :
      (i k : ℕ) (t : InSet V) (ss : Incoming V)
      → IsStair (t ∷ ss)
      → find_gap i ss ≡ some k
      → has t i ≡ false
  newer-lacks i k t ss st f =
      let (s, g, lacks) = find_gap-some i k ss f in
      elim (Bool-cases (has t i)) [
        | inl h ↦ absurd (clash s lacks (All-get_elem? (λ t. has t i ≡ true) ss k s (st.0 i h) g))
        | inr h ↦ h
      ]
    where
      clash : (s : InSet V) → has s i ≡ false → has s i ≡ true → ⊥
      clash s a b = cc

  pub find_gap-older :
      (i k : ℕ) (t : InSet V) (ss : Incoming V)
      → find_gap i (t ∷ ss) ≡ some (suc k)
      → find_gap i ss ≡ some k
  unfolding find_gap
  find_gap-older i k t ss f = ground arith

  pub find_gap-newest :
      (i : ℕ) (t : InSet V) (ss : Incoming V)
      → find_gap i (t ∷ ss) ≡ some 0
      → (find_gap i ss ≡ none) × (has t i ≡ false)
  unfolding find_gap
  find_gap-newest i t ss f = (ground arith, ground arith)

  -- A value joins the end of its queue, and no other queue changes.
  pub column-set :
      (i k j : ℕ) (v : V) (ss : Incoming V) (s : InSet V)
      → IsStair ss
      → find_gap i ss ≡ some k
      → get_elem? ss k ≡ some s
      → i < length s
      → column j (set ss k (set s i (some v))) ≡ column j ss ++ (if nat_beq i j then v ∷ [] else [])
  column-set i k j v [] s st f g h = cc
  column-set i zero j v (t ∷ ss) s st f g h =
      let same : t ≡ s = cc in
      let lacks = subst (λ x. has x i ≡ false) same (find_gap-newest i t ss f).1 in
      rw (value-set_append s i j v h lacks, same) (sym (append_assoc (column j ss) (value s j) _))
  column-set i (suc k) j v (t ∷ ss) s st f g h =
      let f' = find_gap-older i k t ss f in
      rw (column-set i k j v ss s st.1 f' g h) (elim (Bool-cases (nat_beq i j)) [
        | inl e ↦
            let same = (nat_beq_iff i j).0 e in
            let lacks = subst (λ x. has t x ≡ false) same (newer-lacks i k t ss st f') in
            rw (e, value-none t j lacks, append-nil, append-nil)
        | inr e ↦ rw (e, append-nil, append-nil)
      ])

  pub IsStair-set :
      (i k : ℕ) (v : V) (ss : Incoming V) (s : InSet V)
      → IsStair ss
      → find_gap i ss ≡ some k
      → get_elem? ss k ≡ some s
      → IsStair (set ss k (set s i (some v)))
  IsStair-set i k v [] s st f g = cc
  IsStair-set i zero v (t ∷ ss) s st f g =
      let same : t ≡ s = cc in
      (
        λ j hj. elim (Bool-cases (nat_beq i j)) [
          | inl e ↦
              subst (λ x. All (λ t. has t x ≡ true) ss) ((nat_beq_iff i j).0 e)
                (find_gap-none i ss (find_gap-newest i t ss f).0)
          | inr e ↦
              st.0 j (subst (λ x. has x j ≡ true) (sym same) (sym (has-set_ne s i j v e) ∙ hj))
        ],
        st.1,
      )
  IsStair-set i (suc k) v (t ∷ ss) s st f g = (
    λ j hj.
        All-set (λ t. has t j ≡ true) ss k (set s i (some v)) (st.0 j hj)
          (has-set s i j v (All-get_elem? (λ t. has t j ≡ true) ss k s (st.0 j hj) g)),
    IsStair-set i k v ss s st.1 (find_gap-older i k t ss f) g,
  )
