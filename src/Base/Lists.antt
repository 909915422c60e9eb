-- ===== src/Base/Lists.antt =====
-- Sequences measured and indexed by native numbers, under the library's names.
use Prim.Native.Nat.{ℕ, zero, suc, ◌+◌, ◌-◌, ◌<◌, ◌≤◌}
use mathlib.Core.Path.{◌≡◌, refl, ap, subst}
use mathlib.Core.Logic.{◌⊎◌, ◌≢◌, inl, inr}
use mathlib.Core.List.{List, [], ◌∷◌, ◌++◌, map}
use mathlib.Core.Bool.{Bool, true, false, ◌||◌}
use mathlib.Core.Option.{Option, none, some}
use native.Mathlib.Omega.{arith}
use hypercomm.Base.Tests.{if◌then◌else◌, Eq, ◌==◌}

module _ {ℓ} {A : Type ℓ} where
  abbrev pub length : List A → ℕ
  length [] = 0
  length (x ∷ xs) = suc (length xs)

  abbrev pub get_elem? : List A → ℕ → Option A
  get_elem? [] i = none
  get_elem? (x ∷ xs) zero = some x
  get_elem? (x ∷ xs) (suc i) = get_elem? xs i

  -- A write out of bounds changes nothing.
  abbrev pub set : List A → ℕ → A → List A
  set [] i v = []
  set (x ∷ xs) zero v = v ∷ xs
  set (x ∷ xs) (suc i) v = x ∷ set xs i v

  -- `erase` at a position.
  abbrev pub erase_idx : List A → ℕ → List A
  erase_idx [] i = []
  erase_idx (x ∷ xs) zero = xs
  erase_idx (x ∷ xs) (suc i) = x ∷ erase_idx xs i

  abbrev pub replicate : ℕ → A → List A
  replicate zero a = []
  replicate (suc n) a = a ∷ replicate n a

  abbrev pub null : List A → Bool
  null [] = true
  null (x ∷ xs) = false

  abbrev pub All {κ} : (A → Type κ) → List A → Type κ
  All P [] = Unit
  All P (x ∷ xs) = P x × All P xs

  -- Memory from a position on, and a write over what stands there; a write past the end is lost.
  abbrev pub drop : ℕ → List A → List A
  drop zero xs = xs
  drop (suc n) [] = []
  drop (suc n) (x ∷ xs) = drop n xs

  abbrev pub overwrite : List A → List A → List A
  overwrite [] old = old
  overwrite (x ∷ xs) [] = []
  overwrite (x ∷ xs) (y ∷ old) = x ∷ overwrite xs old

  abbrev pub overwrite_at : ℕ → List A → List A → List A
  overwrite_at zero xs old = overwrite xs old
  overwrite_at (suc n) xs [] = []
  overwrite_at (suc n) xs (y ∷ old) = y ∷ overwrite_at n xs old

  pub overwrite-append :
      (xs old : List A) → length xs ≤ length old → overwrite xs old ≡ xs ++ drop (length xs) old
  overwrite-append [] old h = refl
  overwrite-append (x ∷ xs) [] h = absurd (omega arith)
  overwrite-append (x ∷ xs) (y ∷ old) h = ap (λ zs. x ∷ zs) (overwrite-append xs old (omega arith))

  pub length-overwrite : (xs old : List A) → length (overwrite xs old) ≡ length old
  length-overwrite [] old = refl
  length-overwrite (x ∷ xs) [] = refl
  length-overwrite (x ∷ xs) (y ∷ old) = ap suc (length-overwrite xs old)

  pub length-overwrite_at : (n : ℕ) (xs old : List A) → length (overwrite_at n xs old) ≡ length old
  length-overwrite_at zero xs old = length-overwrite xs old
  length-overwrite_at (suc n) xs [] = refl
  length-overwrite_at (suc n) xs (y ∷ old) = ap suc (length-overwrite_at n xs old)

  pub length-drop : (n : ℕ) (xs : List A) → length (drop n xs) ≡ length xs - n
  length-drop zero xs = omega arith
  length-drop (suc n) [] = omega arith
  length-drop (suc n) (x ∷ xs) = omega (arith, length-drop n xs)

  -- A write in front of a position is not seen from there.
  pub drop-overwrite :
      (n : ℕ) (xs old : List A) → length xs ≤ n → drop n (overwrite xs old) ≡ drop n old
  drop-overwrite n [] old h = refl
  drop-overwrite zero (x ∷ xs) old h = absurd (omega arith)
  drop-overwrite (suc n) (x ∷ xs) [] h = refl
  drop-overwrite (suc n) (x ∷ xs) (y ∷ old) h = drop-overwrite n xs old (omega arith)

  pub drop-overwrite_at :
      (n : ℕ) (xs old : List A) → drop n (overwrite_at n xs old) ≡ overwrite xs (drop n old)
  drop-overwrite_at zero xs old = refl
  drop-overwrite_at (suc n) [] [] = refl
  drop-overwrite_at (suc n) (x ∷ xs) [] = refl
  drop-overwrite_at (suc n) xs (y ∷ old) = drop-overwrite_at n xs old

  pub drop_all : (xs : List A) → drop (length xs) xs ≡ []
  drop_all [] = refl
  drop_all (x ∷ xs) = drop_all xs

  pub List-cases : (xs : List A) → (xs ≡ []) ⊎ ((x : A) × (rest : List A) × (xs ≡ x ∷ rest))
  List-cases [] = inl refl
  List-cases (x ∷ rest) = inr (x, rest, refl)

  pub length-append : (xs ys : List A) → length (xs ++ ys) ≡ length xs + length ys
  length-append [] ys = omega arith
  length-append (x ∷ xs) ys = omega (arith, length-append xs ys)

  pub length-replicate : (n : ℕ) (a : A) → length (replicate n a) ≡ n
  length-replicate zero a = refl
  length-replicate (suc n) a = ap suc (length-replicate n a)

  pub length-set : (xs : List A) (i : ℕ) (v : A) → length (set xs i v) ≡ length xs
  length-set [] i v = refl
  length-set (x ∷ xs) zero v = refl
  length-set (x ∷ xs) (suc i) v = ap suc (length-set xs i v)

  pub length-erase_idx :
      (xs : List A) (k : ℕ) (a : A)
      → get_elem? xs k ≡ some a
      → length xs ≡ suc (length (erase_idx xs k))
  length-erase_idx [] k a h = cc
  length-erase_idx (x ∷ xs) zero a h = refl
  length-erase_idx (x ∷ xs) (suc k) a h = ap suc (length-erase_idx xs k a h)

  pub get_elem?-set_self :
      (xs : List A) (i : ℕ) (v : A) → i < length xs → get_elem? (set xs i v) i ≡ some v
  get_elem?-set_self [] i v h = absurd (omega arith)
  get_elem?-set_self (x ∷ xs) zero v h = refl
  get_elem?-set_self (x ∷ xs) (suc i) v h = get_elem?-set_self xs i v (omega arith)

  pub get_elem?-set_ne :
      (xs : List A) (i j : ℕ) (v : A) → i ≢ j → get_elem? (set xs i v) j ≡ get_elem? xs j
  get_elem?-set_ne [] i j v h = refl
  get_elem?-set_ne (x ∷ xs) zero zero v h = absurd (h refl)
  get_elem?-set_ne (x ∷ xs) zero (suc j) v h = refl
  get_elem?-set_ne (x ∷ xs) (suc i) zero v h = refl
  get_elem?-set_ne (x ∷ xs) (suc i) (suc j) v h = get_elem?-set_ne xs i j v (λ e. h (ap suc e))

  pub get_elem?-append :
      (xs ys : List A) (i : ℕ) (a : A) → get_elem? xs i ≡ some a → get_elem? (xs ++ ys) i ≡ some a
  get_elem?-append [] ys i a h = cc
  get_elem?-append (x ∷ xs) ys zero a h = h
  get_elem?-append (x ∷ xs) ys (suc i) a h = get_elem?-append xs ys i a h

  pub get_elem?-append_last : (xs : List A) (a : A) → get_elem? (xs ++ a ∷ []) (length xs) ≡ some a
  get_elem?-append_last [] a = refl
  get_elem?-append_last (x ∷ xs) a = get_elem?-append_last xs a

  pub erase_idx-set : (xs : List A) (i : ℕ) (a : A) → erase_idx (set xs i a) i ≡ erase_idx xs i
  erase_idx-set [] i a = refl
  erase_idx-set (x ∷ xs) zero a = refl
  erase_idx-set (x ∷ xs) (suc i) a = ap (λ ys. x ∷ ys) (erase_idx-set xs i a)

  pub All-append {κ} :
      (P : A → Type κ) (front back : List A) → All P front → All P back → All P (front ++ back)
  All-append P [] back _ q = q
  All-append P (a ∷ front) back p q = (p.0, All-append P front back p.1 q)

  pub All-get_elem? {κ} :
      (P : A → Type κ) (xs : List A) (i : ℕ) (a : A) → All P xs → get_elem? xs i ≡ some a → P a
  All-get_elem? P [] i a h f = cc
  All-get_elem? P (x ∷ xs) zero a h f = let same : x ≡ a = cc in subst P same h.0
  All-get_elem? P (x ∷ xs) (suc i) a h f = All-get_elem? P xs i a h.1 f

  pub All-set {κ} :
      (P : A → Type κ) (xs : List A) (i : ℕ) (a : A) → All P xs → P a → All P (set xs i a)
  All-set P [] i a h p = h
  All-set P (x ∷ xs) zero a h p = (p, h.1)
  All-set P (x ∷ xs) (suc i) a h p = (h.0, All-set P xs i a h.1 p)

  pub All-erase_idx {κ} : (P : A → Type κ) (xs : List A) (i : ℕ) → All P xs → All P (erase_idx xs i)
  All-erase_idx P [] i h = h
  All-erase_idx P (x ∷ xs) zero h = h.1
  All-erase_idx P (x ∷ xs) (suc i) h = (h.0, All-erase_idx P xs i h.1)

  pub lt-length_of_get_elem? :
      (xs : List A) (i : ℕ) (a : A) → get_elem? xs i ≡ some a → i < length xs
  lt-length_of_get_elem? [] i a h = cc
  lt-length_of_get_elem? (x ∷ xs) zero a h = omega arith
  lt-length_of_get_elem? (x ∷ xs) (suc i) a h = omega (arith, lt-length_of_get_elem? xs i a h)

  pub get_elem?-lt : (xs : List A) (i : ℕ) → i < length xs → (a : A) × (get_elem? xs i ≡ some a)
  get_elem?-lt [] i h = absurd (omega arith)
  get_elem?-lt (x ∷ xs) zero h = (x, refl)
  get_elem?-lt (x ∷ xs) (suc i) h = get_elem?-lt xs i (omega arith)

abbrev pub sum : List ℕ → ℕ
sum [] = 0
sum (n ∷ ns) = n + sum ns

pub All-map {ℓ κ μ} :
    {A : Type ℓ} {B : Type κ} (P : B → Type μ) (f : A → B) (xs : List A)
    → All (λ x. P (f x)) xs
    → All P (map f xs)
All-map P f [] h = h
All-map P f (x ∷ xs) h = (h.0, All-map P f xs h.1)

module _ {ℓ} {A : Type ℓ} ⦃e : Eq A⦄ where
  -- How often a value occurs.
  abbrev pub count : A → List A → ℕ
  count a [] = 0
  count a (x ∷ xs) = (if a == x then 1 else 0) + count a xs

  -- The position of the first occurrence, the length if there is none.
  abbrev pub index_of : A → List A → ℕ
  index_of a [] = 0
  index_of a (x ∷ xs) = if x == a then 0 else suc (index_of a xs)

  pub count-append : (a : A) (xs ys : List A) → count a (xs ++ ys) ≡ count a xs + count a ys
  count-append a [] ys = omega arith
  count-append a (x ∷ xs) ys = omega (arith, count-append a xs ys)

  abbrev pub Distinct : List A → Type 0
  Distinct [] = Unit
  Distinct (x ∷ xs) = (count x xs ≡ 0) × Distinct xs

  abbrev pub contains : A → List A → Bool
  contains a [] = false
  contains a (x ∷ xs) = a == x || contains a xs

  pub index_of-le-length : (a : A) (xs : List A) → index_of a xs ≤ length xs
  index_of-le-length a [] = omega arith
  index_of-le-length a (x ∷ xs) = ground (arith, index_of-le-length a xs)

  pub count_pos : (a : A) (xs : List A) (i : ℕ) → get_elem? xs i ≡ some a → 0 < count a xs
  count_pos a [] i h = cc
  count_pos a (x ∷ xs) zero h = ground (arith, e.equal_iff a x)
  count_pos a (x ∷ xs) (suc i) h = omega (arith, count_pos a xs i h)

  pub get_elem?-index_of :
      (a : A) (xs : List A) → index_of a xs < length xs → get_elem? xs (index_of a xs) ≡ some a
  get_elem?-index_of a [] h = absurd (omega arith)
  get_elem?-index_of a (x ∷ xs) h = ground (arith, e.equal_iff x a, get_elem?-index_of a xs)

  -- In a list without repetitions the position of a value determines it and is determined by it.
  pub index_of-get_elem? :
      (xs : List A) (i : ℕ) (b : A) → Distinct xs → get_elem? xs i ≡ some b → index_of b xs ≡ i
  index_of-get_elem? [] i b d h = cc
  index_of-get_elem? (x ∷ xs) zero b d h = ground (arith, e.equal_iff x b)
  index_of-get_elem? (x ∷ xs) (suc i) b d h =
      ground (arith, e.equal_iff x b, index_of-get_elem? xs i b, count_pos b xs i h)

  pub contains-append :
      (a : A) (xs ys : List A) → contains a (xs ++ ys) ≡ (contains a xs || contains a ys)
  contains-append a [] ys = refl
  contains-append a (x ∷ xs) ys = ground (arith, contains-append a xs ys)

-- A measure summed over a list.
abbrev pub sum_of : {A : Type 0} → (A → ℕ) → List A → ℕ
sum_of f [] = 0
sum_of f (x ∷ xs) = f x + sum_of f xs

pub sum_of-append :
    {A : Type 0} (f : A → ℕ) (xs ys : List A) → sum_of f (xs ++ ys) ≡ sum_of f xs + sum_of f ys
sum_of-append f [] ys = omega arith
sum_of-append f (x ∷ xs) ys = omega (arith, sum_of-append f xs ys)
