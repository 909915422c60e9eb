-- ===== src/ZeroCopy/Queues.antt =====
-- Queues of posted buffers and of requests: what is found in them, and what they hold afterwards
-- (src/hypercomm/core/locality.cc).
use hypercomm.Base.{
  ℕ, ◌+◌, ◌<◌, ◌≤◌, ◌≡◌, refl, Bool, true, false, ◌⊎◌, List, [], ◌∷◌, ◌++◌, none, some, arith,
  sum_of, null, leb, All, All-append, if◌then◌else◌, Eq, ◌==◌, Bool-cases, inl, inr, Assoc, lookup,
  lookup_or, insert, erase, emplace, lookup-insert, lookup-erase, lookup_or-insert,
}
use hypercomm.ZeroCopy.{Memory, posted, registered, take_first}

-- A get never writes past the end of its memory.
abbrev pub size_of : {B : Type 0} → Memory B → ℕ
size_of (posted b size) = size
size_of (registered size) = size

abbrev pub Roomy : {B R : Type 0} → R × ℕ × Memory B → Type 0
Roomy (r, cnt, memory) = cnt ≤ size_of memory

-- No buffer of a queue is large enough for a request of another.
abbrev pub Unmet : {B R : Type 0} → List (B × ℕ) → List (R × ℕ) → Type 0
Unmet bs rs = All (λ b. All (λ r. b.1 < r.1) rs) bs

-- The request of a get that was started.
abbrev pub request_of : {B R : Type 0} → R × ℕ × Memory B → R × ℕ
request_of (r, cnt, memory) = (r, cnt)

-- A measure summed over a map of queues; their number of values for the measure 1.
unfoldable pub pending : {E A : Type 0} → (A → ℕ) → Assoc E (List A) → ℕ
pending f [] = 0
pending f ((ep, q) ∷ qs) = sum_of f q + pending f qs

module _ {A : Type 0} (test : A → Bool) where
  -- What is found passes the test, and exactly the others are kept.
  pub record IsTaken (xs : List A) (x : A) (rest : List A) : Type 1 where
    pub passes : test x ≡ true
    pub counted : (f : A → ℕ) → sum_of f xs ≡ f x + sum_of f rest
    pub kept : (P : A → Type 0) → All P xs → All P rest

  pub take_first-cases :
      (xs : List A)
      → ((take_first test xs ≡ none) × All (λ x. test x ≡ false) xs)
        ⊎ ((x : A) × (rest : List A) × (take_first test xs ≡ some (x, rest)) × IsTaken xs x rest)
  unfolding take_first
  take_first-cases [] = inl (refl, tt)
  take_first-cases (y ∷ ys) = elim (Bool-cases (test y)) [
    | inl t ↦ inr (y, ys, rw t refl, record { passes = t; counted = λ f. refl; kept = λ P h. h.1 })
    | inr t ↦ elim (take_first-cases ys) [
      | inl (n, fails) ↦ inl (rw (t, n) refl, (t, fails))
      | inr (x, rest, n, taken) ↦ inr (
        x,
        y ∷ rest,
        rw (t, n) refl,
        record {
          passes = taken.passes;
          counted = λ f. omega (arith, taken.counted f);
          kept = λ P h. (h.0, taken.kept P h.1);
        },
      )
    ]
  ]

-- A map of queues after one queue was replaced.
module _ {E A : Type 0} ⦃e : Eq E⦄ where
  pub pending-insert :
      (f : A → ℕ) (ep : E) (q : List A) (m : Assoc E (List A))
      → pending f (insert ep q m) + sum_of f (lookup_or ep [] m) ≡ pending f m + sum_of f q
  unfolding pending insert lookup
  pending-insert f ep q [] = omega arith
  pending-insert f ep q ((k, old) ∷ m) = ground (arith, pending-insert f ep q m)

  pub pending-emplace :
      (f : A → ℕ) (ep : E) (m : Assoc E (List A)) → pending f (emplace ep [] m) ≡ pending f m
  pending-emplace f ep m = ground (arith, pending-insert f ep [] m)

  pub lookup_or-erase :
      (ep k : E) (m : Assoc E (List A))
      → lookup_or k [] (erase ep m) ≡ (if ep == k then [] else lookup_or k [] m)
  lookup_or-erase ep k m = ground (arith, lookup-erase ep k m)

  pub lookup_or-emplace :
      (ep k : E) (m : Assoc E (List A)) → lookup_or k [] (emplace ep [] m) ≡ lookup_or k [] m
  lookup_or-emplace ep k m = ground (arith, lookup-insert ep k [] m, e.equal_iff ep k)

  pub lookup_or-left :
      (ep k : E) (rest : List A) (m : Assoc E (List A))
      → lookup_or k [] (if null rest then erase ep m else insert ep rest m)
        ≡ (if ep == k then rest else lookup_or k [] m)
  lookup_or-left ep k [] m = lookup_or-erase ep k m
  lookup_or-left ep k (x ∷ rest) m = lookup_or-insert ep k [] (x ∷ rest) m

  -- What stands in the queues stays in them, or is replaced by one queue.
  pub replaced :
      (P : List A → Type 0) (ep : E) (q : List A) (m : Assoc E (List A)) (k : E)
      → ((ep == k) ≡ true → P q)
      → P (lookup_or k [] m)
      → P (lookup_or k [] (insert ep q m))
  replaced P ep q m k new old = elim (Bool-cases (ep == k)) [
    | inl h ↦ rw (lookup_or-insert, h) (new h)
    | inr h ↦ rw (lookup_or-insert, h) old
  ]

pub Unmet-request :
    {B R : Type 0} (bs : List (B × ℕ)) (rs : List (R × ℕ)) (r : R) (cnt : ℕ)
    → Unmet bs rs
    → All (λ b. leb cnt b.1 ≡ false) bs
    → Unmet bs (rs ++ (r, cnt) ∷ [])
Unmet-request [] rs r cnt h k = tt
Unmet-request (b ∷ bs) rs r cnt h k = (
  All-append (λ r. b.1 < r.1) rs ((r, cnt) ∷ []) h.0 (let small = k.0 in ground arith, tt),
  Unmet-request bs rs r cnt h.1 k.1,
)

pub All-impl :
    {A : Type 0} (P Q : A → Type 0) (f : (a : A) → P a → Q a) (xs : List A) → All P xs → All Q xs
All-impl P Q f [] h = tt
All-impl P Q f (x ∷ xs) h = (f x h.0, All-impl P Q f xs h.1)
