-- ===== src/Threads/Identifiers.antt =====
-- No identifier is lost and none is in use twice.
use hypercomm.Base.{
  ℕ, zero, suc, ◌+◌, ◌*◌, ◌≤◌, ◌≡◌, refl, sym, ap, true, false, List, [], ◌∷◌, ◌++◌, Option, none,
  some, arith, get_elem?, set, erase_idx, contains, index_of, count, nat_eq, ltb, leb, ◌&&◌,
  nat_beq, nat_beq_iff, if◌then◌else◌, >>=-eq-some, ◌∙◌, count-append, subst, Bool-cases, inl, inr,
}
use hypercomm.Threads.{
  Manager, World, iota, setup_isomalloc, setup_all, create_context, emplace_thread, start_thread,
  on_free, pack_threads, unpack_threads, new_manager, Step, arrive, starts, frees, packs, unpacks,
  Reach, begin, next,
}

-- The threads that a manager answers for: none while it migrates.
abbrev pub held : Manager → List ℕ
held m = if m.is_migrating then [] else m.threads

-- How often an identifier stands in lists, by what is taken of each entry.
module _ {A : Type 0} (of : A → List ℕ) (id : ℕ) where
  unfoldable pub count_all : List A → ℕ
  count_all [] = 0
  count_all (x ∷ xs) = count id (of x) + count_all xs

  count_all-set :
      (xs : List A) (i : ℕ) (old new : A)
      → get_elem? xs i ≡ some old
      → count_all (set xs i new) + count id (of old) ≡ count_all xs + count id (of new)
  unfolding count_all
  count_all-set [] i old new h = cc
  count_all-set (x ∷ xs) zero old new h = let same : x ≡ old = cc in rw (← same) (omega arith)
  count_all-set (x ∷ xs) (suc i) old new h = omega (arith, count_all-set xs i old new h)

  count_all-erase_idx :
      (xs : List A) (i : ℕ) (old : A)
      → get_elem? xs i ≡ some old
      → count_all (erase_idx xs i) + count id (of old) ≡ count_all xs
  unfolding count_all
  count_all-erase_idx [] i old h = cc
  count_all-erase_idx (x ∷ xs) zero old h = let same : x ≡ old = cc in rw (← same) (omega arith)
  count_all-erase_idx (x ∷ xs) (suc i) old h = omega (arith, count_all-erase_idx xs i old h)

  count-le-count_all :
      (xs : List A) (i : ℕ) (x : A) → get_elem? xs i ≡ some x → count id (of x) ≤ count_all xs
  unfolding count_all
  count-le-count_all [] i x h = cc
  count-le-count_all (y ∷ xs) zero x h = let same : y ≡ x = cc in rw (← same) (omega arith)
  count-le-count_all (y ∷ xs) (suc i) x h = omega (arith, count-le-count_all xs i x h)

-- How often an identifier is free, in use or on its way.
unfoldable pub uses : ℕ → World → ℕ
uses id w =
    count_all (λ pool. pool) id w.pools
    + count_all held id w.managers
    + count_all (λ image. image) id w.images

-- An identifier that is taken leaves the pool.
create_context-takes :
    (x : ℕ) (pool : List ℕ)
    → (last : ℕ) × (rest : List ℕ) × (create_context (x ∷ pool) ≡ some (last, rest))
      × ((id : ℕ) → count id (x ∷ pool) ≡ count id (last ∷ []) + count id rest)
unfolding create_context
create_context-takes x [] = (x, [], refl, λ id. omega arith)
create_context-takes x (y ∷ pool) =
    let (last, rest, takes, counts) = create_context-takes y pool in
    (last, x ∷ rest, rw takes refl, λ id. omega (arith, counts id))

create_context-empty : create_context [] ≡ none
unfolding create_context
create_context-empty = refl

create_context-count :
    (id : ℕ) (pool : List ℕ) (got : ℕ) (rest : List ℕ)
    → create_context pool ≡ some (got, rest)
    → count id pool ≡ count id (got ∷ []) + count id rest
create_context-count id [] got rest h = let empty = create_context-empty in cc
create_context-count id (x ∷ pool) got rest h =
    let (last, others, takes, counts) = create_context-takes x pool in
    let same : ◌≡◌ {A = Option (ℕ × List ℕ)} (some (last, others)) (some (got, rest)) =
      sym takes ∙ h in
    let same_id : last ≡ got = cc in
    let same_rest : others ≡ rest = cc in rw (← same_id, ← same_rest) (counts id)

count-contains : (id : ℕ) (xs : List ℕ) → contains id xs ≡ false → count id xs ≡ 0
count-contains id [] h = refl
count-contains id (x ∷ xs) h = ground (arith, count-contains id xs)

contains-count : (id : ℕ) (xs : List ℕ) → contains id xs ≡ true → 1 ≤ count id xs
contains-count id [] h = cc
contains-count id (x ∷ xs) h = ground (arith, contains-count id xs)

-- A thread that is freed is taken out once.
count-erase :
    (id k : ℕ) (xs : List ℕ)
    → contains k xs ≡ true
    → count id (erase_idx xs (index_of k xs)) + count id (k ∷ []) ≡ count id xs
count-erase id k [] h = cc
count-erase id k (x ∷ xs) h = elim (Bool-cases (nat_beq x k)) [
  | inl e ↦ let same : x ≡ k = (nat_beq_iff x k).0 e in rw (e, same) (omega arith)
  | inr e ↦
      let later : contains k xs ≡ true = ground (arith, nat_beq_iff x k) in
      rw e (omega (arith, count-erase id k xs later))
]

-- A world in which each identifier is used at most once.
abbrev pub IsUnique : World → Type 0
IsUnique w = (id : ℕ) → uses id w ≤ 1

count_self : (id : ℕ) → count id (id ∷ []) ≡ 1
count_self id = ground (arith, nat_beq_iff id id)

taken-count :
    (id : ℕ) (pool rest : List ℕ) (m : Manager) (got : ℕ)
    → create_context pool ≡ some (got, rest)
    → m.is_migrating ≡ false
    → count got pool + count got m.threads ≤ 1
    → count id rest + count id (held (record m { threads = emplace_thread got m.threads }))
      ≡ count id pool + count id (held m)
unfolding emplace_thread
taken-count id pool rest m got takes still once =
    let counts = create_context-count id pool got rest takes in
    let own = create_context-count got pool got rest takes in
    let fresh : contains got m.threads ≡ false = elim (Bool-cases (contains got m.threads)) [
      | inl h ↦ absurd (omega (arith, contains-count got m.threads h, own, count_self got, once))
      | inr h ↦ h
    ] in
    simp (still, fresh) (omega (arith, counts, count-append id m.threads (got ∷ [])))

start_thread-count :
    (id : ℕ) (pool rest : List ℕ) (m m' : Manager) (got : ℕ)
    → start_thread pool m ≡ some (got, rest, m')
    → m.is_migrating ≡ false
    → ((k : ℕ) → count k pool + count k m.threads ≤ 1)
    → count id rest + count id (held m') ≡ count id pool + count id (held m)
unfolding start_thread
start_thread-count id pool rest m m' got h still once =
    let ((id', rest'), takes, e) = >>=-eq-some (create_context pool) _ h in
    let m2 : Manager = record m { threads = emplace_thread id' m.threads } in
    let same_rest : rest' ≡ rest = cc in
    let same : m2 ≡ m' = cc in
    subst (λ x. count id x + count id (held m') ≡ count id pool + count id (held m)) same_rest
      (subst (λ x. count id rest' + count id (held x) ≡ count id pool + count id (held m)) same
        (taken-count id pool rest' m id' takes still (once id')))

on_free-count :
    (id k : ℕ) (pool : List ℕ) (m : Manager)
    → contains k m.threads ≡ true
    → count id (on_free k pool m).0 + count id (held (on_free k pool m).1)
      ≡ count id pool + count id (held m)
unfolding on_free
on_free-count id k pool m h = elim (Bool-cases m.is_migrating) [
  | inl b ↦ simp b refl
  | inr b ↦ simp b (omega (arith, count-append id pool (k ∷ []), count-erase id k m.threads h))
]

-- Threads that arrive are taken in, if no two have one identifier.
unpack_threads-count :
    (id : ℕ) (image : List ℕ) (m : Manager)
    → m.is_migrating ≡ false
    → ((k : ℕ) → count k image + count k m.threads ≤ 1)
    → count id (held (unpack_threads image m)) ≡ count id image + count id m.threads
unfolding unpack_threads emplace_thread
unpack_threads-count id [] m still once = simp still (omega arith)
unpack_threads-count id (k ∷ image) m still once =
    let fresh : contains k m.threads ≡ false = elim (Bool-cases (contains k m.threads)) [
      | inl h ↦ absurd (omega (arith, contains-count k m.threads h, once k, count_self k))
      | inr h ↦ h
    ] in
    let ready : emplace_thread k m.threads ≡ m.threads ++ k ∷ [] =
      rw (emplace_thread, fresh) refl in
    let rest =
      unpack_threads-count id image (record m { threads = m.threads ++ k ∷ [] }) still
        (λ j. omega (arith, once j, count-append j m.threads (k ∷ []))) in
    simp (ready, rest) (omega (arith, count-append id m.threads (k ∷ [])))

-- The pool and the manager of a step are parts of the world.
together :
    (w : World) (i : ℕ) (m : Manager) (pool : List ℕ)
    → IsUnique w
    → get_elem? w.managers i ≡ some m
    → m.is_migrating ≡ false
    → get_elem? w.pools m.pe ≡ some pool
    → (k : ℕ) → count k pool + count k m.threads ≤ 1
unfolding uses
together w i m pool once at still has k =
    let same : held m ≡ m.threads = simp still refl in
    omega (
      arith,
      once k,
      ap (count k) same,
      count-le-count_all (λ q. q) k w.pools m.pe pool has,
      count-le-count_all held k w.managers i m at,
    )

-- Each step keeps how often an identifier is free, in use or on its way.
step_uses : (w w' : World) (id : ℕ) → IsUnique w → Step w w' → uses id w' ≡ uses id w
unfolding uses count_all pack_threads
step_uses w _ id once (arrive pe) = omega arith
step_uses w _ id once (starts i m m' pool rest got at still has start) = omega (
  arith,
  count_all-set (λ q. q) id w.pools m.pe pool rest has,
  count_all-set held id w.managers i m m' at,
  start_thread-count id pool rest m m' got start still (together w i m pool once at still has),
)
step_uses w _ id once (frees i m pool k at own has) = omega (
  arith,
  count_all-set (λ q. q) id w.pools m.pe pool (on_free k pool m).0 has,
  count_all-set held id w.managers i m (on_free k pool m).1 at,
  on_free-count id k pool m own,
)
step_uses w _ id once (packs i m at still) =
    let same : held m ≡ m.threads = simp still refl in
    omega (
      arith,
      count_all-set held id w.managers i m (record m { is_migrating = true }) at,
      ap (count id) same,
    )
step_uses w _ id once (unpacks k pe image at) =
    let alone : (j : ℕ) → count j image + 0 ≤ 1 =
      λ j. omega (arith, once j, count-le-count_all (λ q. q) j w.images k image at) in
    omega (
      arith,
      count_all-erase_idx (λ q. q) id w.images k image at,
      unpack_threads-count id image (new_manager pe) refl alone,
    )

-- The identifiers of all processing elements before any thread starts.
count-iota :
    (id first n : ℕ)
    → count id (iota first n) ≡ (if leb first id && ltb id (first + n) then 1 else 0)
unfolding iota
count-iota id first zero = ground arith
count-iota id first (suc n) = ground (arith, count-iota id (suc first) n)

abbrev pub started : ℕ → ℕ → World
started max_threads pes = record { pools = setup_all max_threads 0 pes; managers = []; images = [] }

count-setup_all :
    (id max_threads my_pe n : ℕ)
    → count_all (λ q. q) id (setup_all max_threads my_pe n)
      ≡ (if leb (max_threads * my_pe) id && ltb id (max_threads * (my_pe + n)) then 1 else 0)
unfolding setup_all setup_isomalloc count_all
count-setup_all id max_threads my_pe zero = ground arith
count-setup_all id max_threads my_pe (suc n) =
    let here = count-iota id (max_threads * my_pe) max_threads in
    let later = count-setup_all id max_threads (suc my_pe) n in ground (arith, here, later)

-- In every world that can be reached after the start, each of the identifiers of all processing
-- elements is free, in use or on its way exactly once, and there are no others.
pub Reach-IsUnique :
    (max_threads pes : ℕ) (w : World) (id : ℕ)
    → Reach (started max_threads pes) w
    → uses id w ≡ (if ltb id (max_threads * pes) then 1 else 0)
unfolding uses count_all
Reach-IsUnique max_threads pes _ id begin = ground (arith, count-setup_all id max_threads 0 pes)
Reach-IsUnique max_threads pes w' id (next {w} r s) =
    let once : IsUnique w =
      λ k. let before = Reach-IsUnique max_threads pes w k r in ground arith in
    step_uses w w' id once s ∙ Reach-IsUnique max_threads pes w id r
