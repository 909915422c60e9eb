-- ===== src/Sections/Reduction/Members.antt =====
-- Each member of a section contributes once to a reduction over it
-- (include/hypercomm/core/locality.hpp), so that what all have contributed is a sum over the section.
use hypercomm.Base.{
  ℕ, ◌+◌, ◌≡◌, refl, sym, ◌∙◌, subst, true, false, not, ◌&&◌, List, [], ◌∷◌, Option, arith, length,
  ltb, ltb→lt, Eq, ◌==◌, Bool-cases, inl, inr, Distinct, contains, count, index_of, ==_sound,
  ==_refl, if◌then◌else◌,
}
use hypercomm.Sections.{is_member}
use hypercomm.Sections.Tree.{is_member_iff}
use hypercomm.Sections.Reduction.{Net, Reach, here, contributes, delivers}
use hypercomm.Sections.Reduction.Weights.{sum_of}

module _ {A : Type 0} ⦃e : Eq A⦄ where
  -- A list without the occurrences of a value.
  abbrev without : A → List A → List A
  without x [] = []
  without x (y ∷ ys) = let rest = without x ys in if x == y then rest else y ∷ rest

  contains-count : (a : A) (xs : List A) → contains a xs ≡ false → count a xs ≡ 0
  contains-count a [] h = refl
  contains-count a (x ∷ xs) h = ground (arith, contains-count a xs)

  count-contains : (a : A) (xs : List A) → count a xs ≡ 0 → contains a xs ≡ false
  count-contains a [] h = refl
  count-contains a (x ∷ xs) h = ground (arith, count-contains a xs)

  count-without : (a x : A) (ys : List A) → count a ys ≡ 0 → count a (without x ys) ≡ 0
  count-without a x [] h = refl
  count-without a x (y ∷ ys) h = ground (arith, count-without a x ys)

  without-Distinct : (x : A) (ys : List A) → Distinct ys → Distinct (without x ys)
  without-Distinct x [] d = tt
  without-Distinct x (y ∷ ys) d = elim (Bool-cases (x == y)) [
    | inl same ↦ rw same (without-Distinct x ys d.1)
    | inr other ↦ rw other (count-without y x ys d.0, without-Distinct x ys d.1)
  ]

  contains-without :
      (i x : A) (ys : List A) → contains i (without x ys) ≡ (not (x == i) && contains i ys)
  contains-without i x [] = ground arith
  contains-without i x (y ∷ ys) =
      ground (arith, contains-without i x ys, e.equal_iff x y, e.equal_iff x i, e.equal_iff i y)

  without_absent : (x : A) (ys : List A) → count x ys ≡ 0 → without x ys ≡ ys
  without_absent x [] h = refl
  without_absent x (y ∷ ys) h = ground (arith, without_absent x ys)

  sum_of-without :
      (f : A → ℕ) (x : A) (ys : List A)
      → Distinct ys
      → contains x ys ≡ true
      → f x + sum_of f (without x ys) ≡ sum_of f ys
  sum_of-without f x [] d h = cc
  sum_of-without f x (y ∷ ys) d h = elim (Bool-cases (x == y)) [
    | inl same ↦
        let at_y = ==_sound x y same in
        rw (same, without_absent x ys (subst (λ a. count a ys ≡ 0) (sym at_y) d.0), at_y) refl
    | inr other ↦ rw other (omega (arith, sum_of-without f x ys d.1 (ground arith)))
  ]

  -- Two lists without repetitions and with the same values have the same sum.
  pub sum_of-same :
      (f : A → ℕ) (xs ys : List A)
      → Distinct xs
      → Distinct ys
      → ((i : A) → contains i xs ≡ contains i ys)
      → sum_of f xs ≡ sum_of f ys
  sum_of-same f [] [] dx dy same = refl
  sum_of-same f [] (y ∷ ys) dx dy same = absurd (ground (arith, same y, ==_refl y))
  sum_of-same f (x ∷ xs) ys dx dy same =
      let there : contains x ys ≡ true = ground (arith, same x, ==_refl x) in
      omega (
        arith,
        sum_of-without f x ys dy there,
        sum_of-same f xs (without x ys) dx.1 (without-Distinct x ys dy) (λ i. ground (
          arith,
          same i,
          contains-without i x ys,
          count-contains x xs dx.0,
          e.equal_iff x i,
          e.equal_iff i x,
        )),
      )

  contains-index_of : (i : A) (ms : List A) → contains i ms ≡ ltb (index_of i ms) (length ms)
  contains-index_of i [] = refl
  contains-index_of i (x ∷ ms) =
      ground (arith, contains-index_of i ms, e.equal_iff i x, e.equal_iff x i)

  contains-is_member : (ms : List A) (i : A) → contains i ms ≡ is_member ms i
  contains-is_member ms i =
      contains-index_of i ms ∙ (elim (Bool-cases (ltb (index_of i ms) (length ms))) [
        | inl h ↦ h ∙ sym ((is_member_iff ms i).1 (ltb→lt _ _ h))
        | inr h ↦ elim (Bool-cases (is_member ms i)) [
          | inl inside ↦ absurd (ground (arith, (is_member_iff ms i).0 inside))
          | inr outside ↦ h ∙ sym outside
        ]
      ])

module _ {I M C K : Type 0} ⦃e : Eq I⦄ (combine : C → List M → Option M) (ms : List I)
    (values : I → Option M) (fn : C) (cb : K) (start : Net I M C K) where
  Reach-Distinct :
      {done : List I} {net : Net I M C K}
      → Reach combine ms values fn cb start done net
      → Distinct done
  Reach-Distinct here = tt
  Reach-Distinct (contributes {done = done} r i inside new runs) =
      (contains-count i done new, Reach-Distinct r)
  Reach-Distinct (delivers r p runs) = Reach-Distinct r

  Reach-inside :
      {done : List I} {net : Net I M C K} (j : I)
      → Reach combine ms values fn cb start done net
      → contains j done ≡ true
      → is_member ms j ≡ true
  Reach-inside j here h = absurd (ground arith)
  Reach-inside j (contributes {done = done} r i inside new runs) h = elim (Bool-cases (j == i)) [
    | inl same ↦ rw (==_sound j i same) inside
    | inr other ↦ Reach-inside j r (ground arith)
  ]
  Reach-inside j (delivers r p runs) h = Reach-inside j r h

  -- Once all members have contributed, a sum over the contributors is one over the section.
  pub sum_of-contributed :
      (f : I → ℕ) {done : List I} {net : Net I M C K}
      → Distinct ms
      → Reach combine ms values fn cb start done net
      → ((i : I) → is_member ms i ≡ true → contains i done ≡ true)
      → sum_of f done ≡ sum_of f ms
  sum_of-contributed f {done} d r all = sum_of-same f done ms (Reach-Distinct r) d same
    where
      same : (i : I) → contains i done ≡ contains i ms
      same i = rw (contains-is_member ms i) (elim (Bool-cases (is_member ms i)) [
        | inl inside ↦ rw inside (all i inside)
        | inr outside ↦ elim (Bool-cases (contains i done)) [
          | inl there ↦ absurd (ground (arith, Reach-inside i r there))
          | inr absent ↦ rw (outside, absent) refl
        ]
      ])
