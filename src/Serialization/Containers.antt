-- ===== src/Serialization/Containers.antt =====
-- include/hypercomm/serialization/pup.hpp: the `puper` of each type that holds its parts by value.
-- A puper writes bytes and reads them back; the sizing pass counts what `put` writes.
use hypercomm.Base.{
  ℕ, zero, suc, ◌^◌, ◌<◌, ◌≡◌, refl, List, [], ◌∷◌, ◌++◌, Option, none, some, arith, length,
  append_assoc, append-nil, All, nat_beq, if◌then◌else◌, is_some, Eq, Assoc, lookup, insert, ◌>>=◌,
}
use hypercomm.Serialization.Bytes.{word_size, put_word, get_word, get_word-put_word}

-- `puper<A>`. Its law: what it wrote is what it reads, and it reads no further. `Fits` says of a
-- value that it has a place in the format.
pub record Puper (A : Type 0) : Type 1 where
  pub Fits : A → Type 0
  pub put : A → List ℕ
  pub get : List ℕ → Option (A × List ℕ)
  pub get-put : (a : A) (rest : List ℕ) → Fits a → get (put a ++ rest) ≡ some (a, rest)

-- `is_bytes` at `std::size_t`.
instance abbrev pub word_puper : Puper ℕ
word_puper = record {
  Fits = λ n. n < 256 ^ word_size;
  put = put_word word_size;
  get = get_word word_size;
  get-put = λ n rest h. get_word-put_word word_size n rest h;
}

-- The empty tuple.
instance abbrev pub unit_puper : Puper (Unit {0})
unit_puper = record {
  Fits = λ _. Unit;
  put = λ _. [];
  get = λ bytes. some (tt, bytes);
  get-put = λ _ rest _. refl;
}

module _ {A B : Type 0} ⦃p : Puper A⦄ ⦃q : Puper B⦄ where
  -- Also `pup_tuple_impl`, by which a tuple follows the tuple of all but its last part.
  unfoldable pub put_pair : A × B → List ℕ
  put_pair (a, b) = p.put a ++ q.put b

  unfoldable pub get_pair : List ℕ → Option ((A × B) × List ℕ)
  get_pair bytes = do (a, rest) ← p.get bytes; (b, rest') ← q.get rest; some ((a, b), rest')

  abbrev pub PairFits : A × B → Type 0
  PairFits (a, b) = p.Fits a × q.Fits b

  pub get_pair-put_pair :
      (ab : A × B) (rest : List ℕ) → PairFits ab → get_pair (put_pair ab ++ rest) ≡ some (ab, rest)
  unfolding put_pair get_pair
  get_pair-put_pair (a, b) rest (h, k) =
      simp (append_assoc, p.get-put a (q.put b ++ rest) h, q.get-put b rest k)

  instance abbrev pub pair_puper : Puper (A × B)
  pair_puper = record {
    Fits = PairFits;
    put = put_pair;
    get = get_pair;
    get-put = get_pair-put_pair;
  }

module _ {A : Type 0} ⦃p : Puper A⦄ where
  unfoldable pub put_all : List A → List ℕ
  put_all [] = []
  put_all (x ∷ xs) = p.put x ++ put_all xs

  unfoldable pub get_all : ℕ → List ℕ → Option (List A × List ℕ)
  get_all zero bytes = some ([], bytes)
  get_all (suc n) bytes = do
    (x, rest) ← p.get bytes
    (xs, rest') ← get_all n rest
    some (x ∷ xs, rest')

  pub get_all-put_all :
      (xs : List A) (rest : List ℕ)
      → All (λ x. p.Fits x) xs
      → get_all (length xs) (put_all xs ++ rest) ≡ some (xs, rest)
  unfolding put_all get_all
  get_all-put_all [] rest h = refl
  get_all-put_all (x ∷ xs) rest (h, k) =
      simp (append_assoc, p.get-put x (put_all xs ++ rest) h, get_all-put_all xs rest k)

  -- `is_list_or_deque`.
  unfoldable pub put_list : List A → List ℕ
  put_list xs = put_word word_size (length xs) ++ put_all xs

  unfoldable pub get_list : List ℕ → Option (List A × List ℕ)
  get_list bytes = do (n, rest) ← get_word word_size bytes; get_all n rest

  abbrev pub ListFits : List A → Type 0
  ListFits xs = (length xs < 256 ^ word_size) × All (λ x. p.Fits x) xs

  pub get_list-put_list :
      (xs : List A) (rest : List ℕ) → ListFits xs → get_list (put_list xs ++ rest) ≡ some (xs, rest)
  unfolding put_list get_list
  get_list-put_list xs rest (h, k) = simp (
    append_assoc,
    get_word-put_word word_size (length xs) (put_all xs ++ rest) h,
    get_all-put_all xs rest k,
  )

  instance abbrev pub list_puper : Puper (List A)
  list_puper = record {
    Fits = ListFits;
    put = put_list;
    get = get_list;
    get-put = get_list-put_list;
  }

  -- `std::array<A, n>`, whose size is not written.
  abbrev pub array_puper : ℕ → Puper (List A)
  array_puper n = record {
    Fits = λ xs. (length xs ≡ n) × All (λ x. p.Fits x) xs;
    put = put_all;
    get = get_all n;
    get-put = λ xs rest h. rw (← h.0) (get_all-put_all xs rest h.1);
  }

  -- `std::unique_ptr` to a type that is no polymorph: the flag `is_null` first.
  unfoldable pub put_unique : Option A → List ℕ
  put_unique none = 1 ∷ []
  put_unique (some a) = 0 ∷ p.put a

  unfoldable pub get_unique : List ℕ → Option (Option A × List ℕ)
  get_unique [] = none
  get_unique (is_null ∷ bytes) =
      if nat_beq is_null 0
      then (p.get bytes >>= λ (a, rest). some (some a, rest))
      else some (none, bytes)

  abbrev pub UniqueFits : Option A → Type 0
  UniqueFits none = Unit
  UniqueFits (some a) = p.Fits a

  pub get_unique-put_unique :
      (o : Option A) (rest : List ℕ)
      → UniqueFits o
      → get_unique (put_unique o ++ rest) ≡ some (o, rest)
  unfolding put_unique get_unique
  get_unique-put_unique none rest h = refl
  get_unique-put_unique (some a) rest h = simp (p.get-put a rest h)

  instance abbrev pub unique_puper : Puper (Option A)
  unique_puper = record {
    Fits = UniqueFits;
    put = put_unique;
    get = get_unique;
    get-put = get_unique-put_unique;
  }

module _ {K V : Type 0} ⦃e : Eq K⦄ ⦃p : Puper K⦄ ⦃q : Puper V⦄ where
  -- `comparable_map`: the entries in the order of the iteration.
  unfoldable pub put_map : Assoc K V → List ℕ
  put_map entries = put_list entries

  -- A key that is there already is the failed assertion on the insertion.
  unfoldable pub get_entries : ℕ → Assoc K V → List ℕ → Option (Assoc K V × List ℕ)
  get_entries zero t bytes = some (t, bytes)
  get_entries (suc n) t bytes = get_pair bytes >>= λ ((k, v), rest).
      if is_some (lookup k t) then none else get_entries n (insert k v t) rest

  unfoldable pub get_map : List ℕ → Option (Assoc K V × List ℕ)
  get_map bytes = do (n, rest) ← get_word word_size bytes; get_entries n [] rest

  -- The keys of the entries differ from one another and from those of `t`.
  abbrev pub Extends : Assoc K V → Assoc K V → Type 0
  Extends t [] = Unit
  Extends t ((k, v) ∷ entries) = (lookup k t ≡ none) × Extends (t ++ (k, v) ∷ []) entries

  insert_fresh :
      (k : K) (v : V) (t : Assoc K V) → lookup k t ≡ none → insert k v t ≡ t ++ (k, v) ∷ []
  unfolding lookup insert
  insert_fresh k v [] h = refl
  insert_fresh k v ((i, old) ∷ t) h = ground (arith, insert_fresh k v t)

  get_entries-put_all :
      (t entries : Assoc K V) (rest : List ℕ)
      → Extends t entries
      → All PairFits entries
      → get_entries (length entries) t (put_all entries ++ rest) ≡ some (t ++ entries, rest)
  unfolding get_entries put_all
  get_entries-put_all t [] rest f h = simp append-nil
  get_entries-put_all t ((k, v) ∷ entries) rest (new, f) (h, fits) = simp (
    append_assoc,
    get_pair-put_pair (k, v) (put_all entries ++ rest) h,
    new,
    insert_fresh k v t new,
    get_entries-put_all (t ++ (k, v) ∷ []) entries rest f fits,
  )

  -- A map with fewer than 2 ^ 64 entries, whose keys are distinct and whose keys and values fit
  -- their own format, is written so that reading it gives the same entries in the same order,
  -- without the failed assertion on a repeated key, and leaves the bytes that follow.
  pub get_map-put_map :
      (entries : Assoc K V) (rest : List ℕ)
      → length entries < 256 ^ word_size
      → Extends [] entries
      → All PairFits entries
      → get_map (put_map entries ++ rest) ≡ some (entries, rest)
  unfolding put_map get_map put_list
  get_map-put_map entries rest h f fits = simp (
    append_assoc,
    get_word-put_word word_size (length entries) (put_all entries ++ rest) h,
    get_entries-put_all [] entries rest f fits,
  )

  abbrev pub map_puper : Puper (Assoc K V)
  map_puper = record {
    Fits =
        λ entries. (length entries < 256 ^ word_size) × Extends [] entries × All PairFits entries;
    put = put_map;
    get = get_map;
    get-put = λ entries rest h. get_map-put_map entries rest h.0 h.1 h.2;
  }
