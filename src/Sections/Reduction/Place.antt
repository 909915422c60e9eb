-- ===== src/Sections/Reduction/Place.antt =====
-- The places of the members of a section in its spanning tree
-- (include/hypercomm/sections/section_identity.hpp), and where their reducers send their results.
use hypercomm.Base.{
  ℕ, zero, suc, ◌+◌, ◌*◌, ◌/◌, ◌<◌, ◌≡◌, refl, ◌∙◌, subst, true, false, List, [], ◌∷◌, some, arith,
  length, Eq, ◌==◌, nat_beq, nat_beq_iff, inl, inr, Distinct, contains, length-append, index_of,
  get_elem?, get_elem?-lt, index_of-get_elem?, lt-length_of_get_elem?, get_elem?-index_of,
  Option-cases, ltb, ==_refl,
}
use hypercomm.Sections.Tree.{at, children, parents, contains-neighbours}
use hypercomm.Sections.Broadcast.Flow.{one}
use hypercomm.Sections.Reduction.{Route, forward_to, to_callback, outputs_of}
use hypercomm.Sections.Reduction.Weights.{port_to}
use hypercomm.Sections.Reduction.Flow.{kids_of}

-- The place of a member in the tree.
module _ {I : Type 0} ⦃e : Eq I⦄ (ms : List I) (distinct : Distinct ms) where
  pub places_apart :
      (i j : I)
      → index_of i ms < length ms
      → index_of j ms < length ms
      → i == j ≡ false
      → nat_beq (index_of i ms) (index_of j ms) ≡ false
  places_apart i j lt ltj other = ground (
    arith,
    e.equal_iff i j,
    get_elem?-index_of j ms ltj,
    get_elem?-index_of i ms lt,
    nat_beq_iff (index_of i ms) (index_of j ms),
  )

  length-at : (k : ℕ) → length (at ms k) ≡ one (ltb k (length ms))
  length-at k = elim (Option-cases (get_elem? ms k)) [
    | inl out ↦ ground (arith, out, get_elem?-lt ms k)
    | inr (x, f) ↦ ground (arith, f, lt-length_of_get_elem? ms k x f)
  ]

  pub length-children : (k : ℕ) → length (children ms k) ≡ kids_of (length ms) k
  length-children k = omega (
    arith,
    length-append (at ms (2 * k + 1)) (at ms (2 * k + 2)),
    length-at (2 * k + 1),
    length-at (2 * k + 2),
  )

  pub children-Distinct : (k : ℕ) → Distinct (children ms k)
  children-Distinct k = elim (Option-cases (get_elem? ms (2 * k + 1))) [
    | inl out ↦ rw out (at-Distinct (2 * k + 2))
    | inr (x, f) ↦ elim (Option-cases (get_elem? ms (2 * k + 2))) [
      | inl out ↦ rw (f, out) (refl, tt)
      | inr (y, g) ↦
          rw (f, g)
            (
              ground (
                arith,
                index_of-get_elem? ms (2 * k + 1) x distinct f,
                index_of-get_elem? ms (2 * k + 2) y distinct g,
                e.equal_iff x y,
              ),
              (refl, tt),
            )
    ]
  ]
    where
      at-Distinct : (q : ℕ) → Distinct (at ms q)
      at-Distinct q = elim (Option-cases (get_elem? ms q)) [
        | inl out ↦ rw out tt
        | inr (x, f) ↦ rw f (refl, tt)
      ]

  -- A member is a child of its parent.
  pub child-of_parent :
      (i a : I) (j : ℕ)
      → index_of i ms ≡ suc j
      → index_of i ms < length ms
      → get_elem? ms (j / 2) ≡ some a
      → contains i (children ms (index_of a ms)) ≡ true
  child-of_parent i a j at_i lt parent =
      let here = index_of-get_elem? ms (j / 2) a distinct parent in
      rw here (
        contains-neighbours ms a i (j / 2) (suc j) distinct parent
          (subst (λ k. get_elem? ms k ≡ some i) at_i (get_elem?-index_of i ms lt))
        ∙ rw parent (ground (arith, ==_refl a)))

  module _ {K : Type 0} (c : ℕ) (cb : K) where
    -- Where the reducer of a member sends its result.
    abbrev pub route : I → List (Route I K)
    route i = outputs_of (parents ms (index_of i ms)) (port_to c i) cb

    pub data Way (i : I) : Type 0 where
      at_root : index_of i ms ≡ 0 → route i ≡ to_callback cb ∷ [] → Way i
      to_parent :
          (j : ℕ) (a : I)
          → index_of i ms ≡ suc j
          → get_elem? ms (j / 2) ≡ some a
          → route i ≡ forward_to a (port_to c i) ∷ []
          → Way i

    pub find-Way : (i : I) → index_of i ms < length ms → Way i
    find-Way i lt = from (index_of i ms) refl
      where
        from : (k : ℕ) → index_of i ms ≡ k → Way i
        from zero h = at_root h (rw h refl)
        from (suc j) h =
            let (a, parent) = get_elem?-lt ms (j / 2) (omega (arith, h)) in
            to_parent j a h parent (rw (h, parent) refl)

    pub length-route : (i : I) → index_of i ms < length ms → length (route i) ≡ 1
    length-route i lt = elim (find-Way i lt) [
      | at_root _ out ↦ rw out refl
      | to_parent j a _ _ out ↦ rw out refl
    ]
