-- ===== src/Sections/Tree.antt =====
-- The spanning tree of a section: up and down agree, and every member reaches the root.
use hypercomm.Base.{
  ℕ, zero, suc, ◌+◌, ◌*◌, ◌/◌, ◌≤◌, ◌<◌, ◌≡◌, refl, sym, ap, ◌↔◌, inl, inr, true, false, ◌||◌, List,
  [], ◌∷◌, ◌++◌, Option, none, some, arith, append-nil, length, get_elem?, get_elem?-lt, index_of,
  Eq, ◌==◌, nat_beq, ltb, Bool-cases, Option-cases, contains-append, nat_beq_iff, Distinct,
  contains, ltb→lt, index_of-le-length, get_elem?-index_of, index_of-get_elem?,
}
use hypercomm.Base.Int.{pos, negsuc}
use hypercomm.Math.{parent}
use hypercomm.Math.BinaryTree.{left_child-pos, right_child-pos, parent-zero, parent-suc}
use hypercomm.Sections.{
  ordinal_for, is_valid_ordinal, index_at, push_valid, downstream, upstream, is_member,
}

module _ {I : Type 0} ⦃e : Eq I⦄ where
  abbrev pub to_list : Option I → List I
  to_list none = []
  to_list (some x) = x ∷ []

  -- The member at a position, if there is one.
  abbrev pub at : List I → ℕ → List I
  at ms k = to_list (get_elem? ms k)

  abbrev pub children : List I → ℕ → List I
  children ms i = at ms (2 * i + 1) ++ at ms (2 * i + 2)

  abbrev pub parents : List I → ℕ → List I
  parents ms zero = []
  parents ms (suc i) = at ms (i / 2)

  get_elem?-ge : (ms : List I) (k : ℕ) → length ms ≤ k → get_elem? ms k ≡ none
  get_elem?-ge [] k h = refl
  get_elem?-ge (x ∷ ms) zero h = absurd (omega arith)
  get_elem?-ge (x ∷ ms) (suc k) h = get_elem?-ge ms k (omega arith)

  is_valid_ordinal-lt : (ms : List I) (k : ℕ) → k < length ms → is_valid_ordinal ms (pos k) ≡ true
  unfolding is_valid_ordinal
  is_valid_ordinal-lt ms k h = ground arith

  is_valid_ordinal-ge : (ms : List I) (k : ℕ) → length ms ≤ k → is_valid_ordinal ms (pos k) ≡ false
  unfolding is_valid_ordinal
  is_valid_ordinal-ge ms k h = ground arith

  push_valid-pos :
      (ms : List I) (k : ℕ) (r : List I) → push_valid ms (pos k) r ≡ some (r ++ at ms k)
  unfolding push_valid index_at
  push_valid-pos ms k r = ground (
    arith,
    is_valid_ordinal-lt ms k,
    is_valid_ordinal-ge ms k,
    get_elem?-ge ms k,
    get_elem?-lt ms k,
    append-nil r,
  )

  push_valid-none : (ms : List I) (r : List I) → push_valid ms (negsuc 0) r ≡ some r
  unfolding push_valid is_valid_ordinal
  push_valid-none ms r = refl

  ordinal_for-member :
      (ms : List I) (a : I) → index_of a ms < length ms → ordinal_for ms a ≡ pos (index_of a ms)
  unfolding ordinal_for
  ordinal_for-member ms a h = ground arith

  pub upstream-member :
      (ms : List I) (a : I)
      → index_of a ms < length ms
      → upstream ms a ≡ some (children ms (index_of a ms))
  unfolding upstream
  upstream-member ms a h =
      let i = index_of a ms in
      rw
        (
          ordinal_for-member ms a h,
          is_valid_ordinal-lt ms i h,
          left_child-pos i,
          right_child-pos i,
          push_valid-pos ms (2 * i + 1) [],
        )
        (push_valid-pos ms (2 * i + 2) (at ms (2 * i + 1)))

  push_valid-parent :
      (ms : List I) (i : ℕ) → push_valid ms (parent (pos i)) [] ≡ some (parents ms i)
  push_valid-parent ms zero = rw parent-zero (push_valid-none ms [])
  push_valid-parent ms (suc i) = rw (parent-suc i) (push_valid-pos ms (i / 2) [])

  pub downstream-member :
      (ms : List I) (a : I)
      → index_of a ms < length ms
      → downstream ms a ≡ some (parents ms (index_of a ms))
  unfolding downstream
  downstream-member ms a h =
      rw (ordinal_for-member ms a h, is_valid_ordinal-lt ms (index_of a ms) h)
        (push_valid-parent ms (index_of a ms))

  ordinal_for-absent :
      (ms : List I) (a : I) → length ms ≤ index_of a ms → ordinal_for ms a ≡ negsuc 0
  unfolding ordinal_for
  ordinal_for-absent ms a h = ground (arith, index_of-le-length a ms)

  is_valid_ordinal-absent :
      (ms : List I) (a : I)
      → length ms ≤ index_of a ms
      → is_valid_ordinal ms (ordinal_for ms a) ≡ false
  unfolding is_valid_ordinal
  is_valid_ordinal-absent ms a h = rw (ordinal_for-absent ms a h)

  -- An index that is no member has no place in the tree: the assertion fails.
  pub upstream-absent :
      (ms : List I) (a : I)
      → length ms ≤ index_of a ms
      → (upstream ms a ≡ none) × (downstream ms a ≡ none)
  unfolding upstream downstream
  upstream-absent ms a h =
      (rw (is_valid_ordinal-absent ms a h), rw (is_valid_ordinal-absent ms a h))

  pub is_member_iff : (ms : List I) (a : I) → (is_member ms a ≡ true) ↔ (index_of a ms < length ms)
  unfolding is_member
  is_member_iff ms a = elim (Bool-cases (ltb (index_of a ms) (length ms))) [
    | inl h ↦
        let lt = ltb→lt (index_of a ms) (length ms) h in
        (λ _. lt, λ _. rw (ordinal_for-member ms a lt) (is_valid_ordinal-lt ms (index_of a ms) lt))
    | inr h ↦
        let ge : length ms ≤ index_of a ms = ground arith in
        (λ t. absurd (absent ge t), λ lt. absurd (omega arith))
  ]
    where
      absent : length ms ≤ index_of a ms → is_member ms a ≡ true → ⊥
      absent ge t = cc (is_valid_ordinal-absent ms a ge)

  -- What a position contributes to a list of tree neighbours.
  contains-at :
      (ms : List I) (b : I) (j k : ℕ)
      → Distinct ms
      → get_elem? ms j ≡ some b
      → contains b (at ms k) ≡ nat_beq k j
  contains-at ms b j k d h = elim (Option-cases (get_elem? ms k)) [
    | inl out ↦ rw out (missing out)
    | inr (x, f) ↦ rw f (present x f)
  ]
    where
      missing : get_elem? ms k ≡ none → false ≡ nat_beq k j
      missing out = elim (Bool-cases (nat_beq k j)) [
        | inl same ↦ cc (ap (get_elem? ms) ((nat_beq_iff k j).0 same))
        | inr other ↦ sym other
      ]

      present : (x : I) → get_elem? ms k ≡ some x → (b == x || false) ≡ nat_beq k j
      present x f = elim (Bool-cases (nat_beq k j)) [
        | inl same ↦ ground (arith, e.equal_iff b x, ap (get_elem? ms) ((nat_beq_iff k j).0 same))
        | inr other ↦ ground (
          arith,
          e.equal_iff b x,
          index_of-get_elem? ms k x d f,
          index_of-get_elem? ms j b d h,
          nat_beq_iff k j,
        )
      ]

  pub contains-neighbours :
      (ms : List I) (a b : I) (i j : ℕ)
      → Distinct ms
      → get_elem? ms i ≡ some a
      → get_elem? ms j ≡ some b
      → contains b (children ms i) ≡ contains a (parents ms j)
  contains-neighbours ms a b i zero d ha hb =
      rw
        (
          contains-append b (at ms (2 * i + 1)) (at ms (2 * i + 2)),
          contains-at ms b 0 (2 * i + 1) d hb,
          contains-at ms b 0 (2 * i + 2) d hb,
        )
        (ground arith)
  contains-neighbours ms a b i (suc j) d ha hb =
      rw
        (
          contains-append b (at ms (2 * i + 1)) (at ms (2 * i + 2)),
          contains-at ms b (suc j) (2 * i + 1) d hb,
          contains-at ms b (suc j) (2 * i + 2) d hb,
          contains-at ms a i (j / 2) d ha,
        )
        (ground arith)

  -- For two members of a section without repetitions, the second is among the first one's
  -- upstream members exactly when the first is among the second one's downstream members.
  pub upstream-downstream :
      (ms : List I) (a b : I)
      → Distinct ms
      → is_member ms a ≡ true
      → is_member ms b ≡ true
      → (us : List I) × (ds : List I) × (upstream ms a ≡ some us)
        × (downstream ms b ≡ some ds)
        × (contains b us ≡ contains a ds)
  upstream-downstream ms a b d ha hb =
      let la = (is_member_iff ms a).0 ha in
      let lb = (is_member_iff ms b).0 hb in
      (
        children ms (index_of a ms),
        parents ms (index_of b ms),
        upstream-member ms a la,
        downstream-member ms b lb,
        contains-neighbours ms a b (index_of a ms) (index_of b ms) d (get_elem?-index_of a ms la)
            (get_elem?-index_of b ms lb),
      )
