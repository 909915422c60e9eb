-- ===== src/Enrollment/Registry.antt =====
-- The ids of enrolled types are their positions in the order of enrollment.
use hypercomm.Base.{
  ℕ, zero, suc, ◌+◌, ◌<◌, ◌≡◌, refl, List, [], ◌∷◌, map, none, some, arith, length, count, Distinct,
  All, get_elem?, nat_eq, nat_beq_iff, Eq, ◌==◌, ==_refl, Assoc, lookup, insert, lookup-insert,
  lookup-insert_self, ==_sound, Bool-cases, inl, inr, subst,
}
use hypercomm.Enrollment.{Enrolled, enroll, identify, instantiate_id, enroll_all, no_types}

length-insert_new :
    {T V : Type 0} ⦃e : Eq T⦄ (t : T) (v : V) (m : Assoc T V)
    → lookup t m ≡ none
    → length (insert t v m) ≡ suc (length m)
unfolding lookup insert
length-insert_new t v [] h = refl
length-insert_new t v ((k, w) ∷ m) h = ground (arith, length-insert_new t v m)

module _ {T A : Type 0} ⦃e : Eq T⦄ where
  abbrev enrolled : T → A → Enrolled T A → Enrolled T A
  enrolled t alloc r = record {
    types = insert t (length r.types) r.types;
    allocs = insert (length r.types) alloc r.allocs;
  }

  enroll-new :
      (t : T) (alloc : A) (r : Enrolled T A)
      → lookup t r.types ≡ none
      → enroll t alloc r ≡ some (length r.types, enrolled t alloc r)
  unfolding enroll
  enroll-new t alloc r h = rw (enroll, h) refl

  abbrev AreNew : List (T × A) → Enrolled T A → Type 0
  AreNew types r = All (λ p. lookup p.0 r.types ≡ none) types

  -- Enrolling one type leaves the others new.
  enrolled-AreNew :
      (t : T) (alloc : A) (types : List (T × A)) (r : Enrolled T A)
      → count t (map (λ p. p.0) types) ≡ 0
      → AreNew types r
      → AreNew types (enrolled t alloc r)
  enrolled-AreNew t alloc [] r h new = tt
  enrolled-AreNew t alloc ((u, a) ∷ types) r h new = (
    rw (lookup-insert t u (length r.types) r.types) (let fresh = new.0 in ground arith),
    enrolled-AreNew t alloc types r (ground arith) new.1,
  )

  -- What a later registry has of an earlier one, and of the types enrolled since.
  pub record Extends (types : List (T × A)) (r r' : Enrolled T A) : Type 0 where
    pub keeps_id : (t : T) (id : ℕ) → lookup t r.types ≡ some id → lookup t r'.types ≡ some id
    pub keeps_alloc :
        (id : ℕ) (a : A)
        → id < length r.types
        → lookup id r.allocs ≡ some a
        → lookup id r'.allocs ≡ some a
    pub absent :
        (u : T)
        → count u (map (λ p. p.0) types) ≡ 0
        → lookup u r.types ≡ none
        → lookup u r'.types ≡ none
    pub gives :
        (k : ℕ) (t : T) (a : A)
        → get_elem? types k ≡ some (t, a)
        → (lookup t r'.types ≡ some (length r.types + k))
          × (lookup (length r.types + k) r'.allocs ≡ some a)

  kept_id :
      (t : T) (alloc : A) (r : Enrolled T A) (u : T) (id : ℕ)
      → lookup t r.types ≡ none
      → lookup u r.types ≡ some id
      → lookup u (insert t (length r.types) r.types) ≡ some id
  kept_id t alloc r u id fresh h =
      rw (lookup-insert t u (length r.types) r.types) (elim (Bool-cases (t == u)) [
        | inl same ↦ let there = ==_sound t u same in cc
        | inr other ↦ rw other h
      ])

  kept_alloc :
      (t : T) (alloc : A) (r : Enrolled T A) (id : ℕ) (a : A)
      → id < length r.types
      → lookup id r.allocs ≡ some a
      → lookup id (insert (length r.types) alloc r.allocs) ≡ some a
  kept_alloc t alloc r id a small h =
      rw (lookup-insert (length r.types) id alloc r.allocs)
        (ground (arith, nat_beq_iff (length r.types) id))

  given :
      (t : T) (alloc : A) (types : List (T × A)) (r r' : Enrolled T A)
      → lookup t r.types ≡ none
      → Extends types (enrolled t alloc r) r'
      → (k : ℕ) (u : T) (a : A) → get_elem? ((t, alloc) ∷ types) k ≡ some (u, a)
      → (lookup u r'.types ≡ some (length r.types + k))
        × (lookup (length r.types + k) r'.allocs ≡ some a)
  given t alloc types r r' fresh later zero u a at =
      let grows = length-insert_new t (length r.types) r.types fresh in
      let here : length r.types + 0 ≡ length r.types = omega arith in
      let id = later.keeps_id t (length r.types) (lookup-insert_self t (length r.types) r.types) in
      let fn =
        later.keeps_alloc (length r.types) alloc (omega arith)
          (lookup-insert_self (length r.types) alloc r.allocs) in
      rw here (cc, cc)
  given t alloc types r r' fresh later (suc k) u a at =
      let grows = length-insert_new t (length r.types) r.types fresh in
      let here : length r.types + suc k ≡ length (insert t (length r.types) r.types) + k =
        omega arith in
      rw here (later.gives k u a at)

  enroll_all-Extends :
      (types : List (T × A)) (r : Enrolled T A)
      → Distinct (map (λ p. p.0) types)
      → AreNew types r
      → (r' : Enrolled T A) × (enroll_all types r ≡ some r') × Extends types r r'
  unfolding enroll_all
  enroll_all-Extends [] r d new = (
    r,
    refl,
    record {
      keeps_id = λ t id h. h;
      keeps_alloc = λ id a h k. k;
      absent = λ u n h. h;
      gives = λ k t a h. cc;
    },
  )
  enroll_all-Extends ((t, alloc) ∷ types) r d new =
      let r1 = enrolled t alloc r in
      let (r', runs, later) =
        enroll_all-Extends types r1 d.1 (enrolled-AreNew t alloc types r d.0 new.1) in
      let grows = length-insert_new t (length r.types) r.types new.0 in
      (
        r',
        rw (enroll_all, enroll-new t alloc r new.0) runs,
        record {
          keeps_id = λ u id h. later.keeps_id u id (kept_id t alloc r u id new.0 h);
          keeps_alloc = λ id a small h.
              later.keeps_alloc id a (omega arith) (kept_alloc t alloc r id a small h);
          absent = λ u others h. later.absent u (ground arith) (
              rw (lookup-insert t u (length r.types) r.types)
                (ground (arith, ==_refl t, e.equal_iff t u)));
          gives = given t alloc types r r' new.0 later;
        },
      )

  none_enrolled : (types : List (T × A)) → AreNew types no_types
  unfolding lookup
  none_enrolled [] = tt
  none_enrolled (p ∷ types) = (refl, none_enrolled types)

  -- Distinct types can be enrolled without an abort, and then a type is identified by its position,
  -- at which an instance is made by the function that came with the type; asking changes nothing.
  pub instantiate-identify :
      (types : List (T × A)) (k : ℕ) (t : T) (a : A)
      → Distinct (map (λ p. p.0) types)
      → get_elem? types k ≡ some (t, a)
      → (r : Enrolled T A) × (enroll_all types no_types ≡ some r)
        × (identify t r ≡ (k, r))
        × (instantiate_id k r ≡ some a)
  unfolding identify instantiate_id
  instantiate-identify types k t a d at =
      let (r, runs, ext) = enroll_all-Extends types no_types d (none_enrolled types) in
      let (id, fn) =
        subst (λ n. (lookup t r.types ≡ some n) × (lookup n r.allocs ≡ some a)) (omega arith)
          (ext.gives k t a at) in
      (r, runs, rw (identify, id) refl, fn)

  -- A type that is not among the distinct types that were enrolled is identified without an abort,
  -- and instantiated as the type that was enrolled first.
  pub identify-unknown :
      (t : T) (a : A) (types : List (T × A)) (u : T)
      → Distinct (map (λ p. p.0) ((t, a) ∷ types))
      → count u (map (λ p. p.0) ((t, a) ∷ types)) ≡ 0
      → (r : Enrolled T A) × (enroll_all ((t, a) ∷ types) no_types ≡ some r)
        × (instantiate_id (identify u r).0 (identify u r).1 ≡ some a)
  unfolding identify instantiate_id lookup
  identify-unknown t a types u d other =
      let whole = (t, a) ∷ types in
      let (r, runs, ext) = enroll_all-Extends whole no_types d (none_enrolled whole) in
      let missing : lookup u r.types ≡ none = ext.absent u other refl in
      (r, runs, rw (identify, missing) (ext.gives 0 t a refl).1)
