-- ===== src/Manageable/Resolve.antt =====
-- What the staged transactions of include/hypercomm/tree_builder/manageable.hpp leave.
use hypercomm.Base.{
  ℕ, zero, suc, ◌+◌, ◌<◌, ◌≡◌, refl, true, false, List, [], ◌∷◌, ◌++◌, none, some, arith, length,
  length-erase_idx, nat_eq, Eq, ◌==◌, ==_sound, contains, count, count-append, append_assoc,
  append-nil, ◌∙◌, index_of, set, erase_idx, get_elem?, All, Assoc, Option-cases, Bool-cases, inl,
  inr,
}
use hypercomm.Manageable.{
  Change, delete, replace, Transaction, Chare, find_ready, apply_change, resolve_transactions,
  stage, add_all, add_downstream, replace_downstream, Calls,
}

module _ {I : Type 0} ⦃e : Eq I⦄ where
  contains_later :
      (a y : I) (ys : List I) → (y == a) ≡ false → contains a (y ∷ ys) ≡ true → contains a ys ≡ true
  contains_later a y ys other h = ground (arith, other, e.equal_iff a y, e.equal_iff y a)

  -- A child that is removed, or replaced, at its first position.
  count-erase_idx :
      (x a : I) (xs : List I)
      → contains a xs ≡ true
      → count x (erase_idx xs (index_of a xs)) + count x (a ∷ []) ≡ count x xs
  count-erase_idx x a [] h = cc
  count-erase_idx x a (y ∷ ys) h = elim (Bool-cases (y == a)) [
    | inl same ↦ let at = ==_sound y a same in rw same (rw at (omega arith))
    | inr other ↦ rw other (omega (arith, count-erase_idx x a ys (contains_later a y ys other h)))
  ]

  count-set :
      (x a b : I) (xs : List I)
      → contains a xs ≡ true
      → count x (set xs (index_of a xs) b) + count x (a ∷ []) ≡ count x xs + count x (b ∷ [])
  count-set x a b [] h = cc
  count-set x a b (y ∷ ys) h = elim (Bool-cases (y == a)) [
    | inl same ↦ let at = ==_sound y a same in rw same (rw at (omega arith))
    | inr other ↦ rw other (omega (arith, count-set x a b ys (contains_later a y ys other h)))
  ]

  abbrev pub substitute : I → Change I → ℕ
  substitute x delete = 0
  substitute x (replace next) = count x (next ∷ [])

module _ {I G : Type 0} ⦃e : Eq I⦄ where
  -- How often an index is the subject of the staged transactions, and how often a replacement.
  abbrev pub leaving : I → List (Transaction I G) → ℕ
  leaving x [] = 0
  leaving x (t ∷ staged) = count x (t.from ∷ []) + leaving x staged

  abbrev pub coming : I → List (Transaction I G) → ℕ
  coming x [] = 0
  coming x (t ∷ staged) = substitute x t.change + coming x staged

  leaving-erase_idx :
      (x : I) (staged : List (Transaction I G)) (k : ℕ) (t : Transaction I G)
      → get_elem? staged k ≡ some t
      → leaving x staged ≡ count x (t.from ∷ []) + leaving x (erase_idx staged k)
  leaving-erase_idx x [] k t h = cc
  leaving-erase_idx x (u ∷ staged) zero t h = let same : u ≡ t = cc in rw same refl
  leaving-erase_idx x (u ∷ staged) (suc k) t h = omega (arith, leaving-erase_idx x staged k t h)

  coming-erase_idx :
      (x : I) (staged : List (Transaction I G)) (k : ℕ) (t : Transaction I G)
      → get_elem? staged k ≡ some t
      → coming x staged ≡ substitute x t.change + coming x (erase_idx staged k)
  coming-erase_idx x [] k t h = cc
  coming-erase_idx x (u ∷ staged) zero t h = let same : u ≡ t = cc in rw same refl
  coming-erase_idx x (u ∷ staged) (suc k) t h = omega (arith, coming-erase_idx x staged k t h)

  leaving-append :
      (x : I) (staged more : List (Transaction I G))
      → leaving x (staged ++ more) ≡ leaving x staged + leaving x more
  leaving-append x [] more = omega arith
  leaving-append x (t ∷ staged) more = omega (arith, leaving-append x staged more)

  coming-append :
      (x : I) (staged more : List (Transaction I G))
      → coming x (staged ++ more) ≡ coming x staged + coming x more
  coming-append x [] more = omega arith
  coming-append x (t ∷ staged) more = omega (arith, coming-append x staged more)

module _ {E I G : Type 0} ⦃e : Eq I⦄ ⦃g : Eq G⦄ (hash : G → ℕ) (calls : Calls E I G) where
  -- No staged transaction is about a child.
  abbrev pub IsResolved : Chare E I G → Type 0
  IsResolved s = All (λ t. contains t.from s.downstream ≡ false) s.staged

  -- The children change by what the transactions that are gone say.
  abbrev pub Accounts : Chare E I G → Chare E I G → Type 0
  Accounts s s' =
      (x : I)
      → count x s'.downstream + leaving x s.staged + coming x s'.staged
        ≡ count x s.downstream + coming x s.staged + leaving x s'.staged

  find_ready-none :
      (down : List I) (staged : List (Transaction I G))
      → find_ready hash calls down staged ≡ none
      → All (λ t. contains t.from down ≡ false) staged
  unfolding find_ready
  find_ready-none down [] h = tt
  find_ready-none down (t ∷ staged) h = (ground arith, find_ready-none down staged (ground arith))

  find_ready-some :
      (down : List I) (staged : List (Transaction I G)) (k : ℕ)
      → find_ready hash calls down staged ≡ some k
      → (t : Transaction I G) × (get_elem? staged k ≡ some t) × (contains t.from down ≡ true)
  unfolding find_ready
  find_ready-some down [] k h = cc
  find_ready-some down (t ∷ staged) zero h = (t, refl, ground arith)
  find_ready-some down (t ∷ staged) (suc k) h = find_ready-some down staged k (ground arith)

  count-apply_change :
      (x a : I) (since : Assoc G ℕ) (c : Change I) (s : Chare E I G)
      → contains a s.downstream ≡ true
      → count x
            (apply_change hash calls (record { change = c; from = a; since = since }) s).downstream
          + count x (a ∷ [])
        ≡ count x s.downstream + substitute x c
  unfolding apply_change
  count-apply_change x a since delete s h = omega (arith, count-erase_idx x a s.downstream h)
  count-apply_change x a since (replace next) s h = count-set x a next s.downstream h

  resolve-settles :
      (fuel : ℕ) (s : Chare E I G)
      → length s.staged < fuel
      → IsResolved (resolve_transactions hash calls fuel s)
        × Accounts s (resolve_transactions hash calls fuel s)
  unfolding resolve_transactions
  resolve-settles zero s lt = absurd (omega arith)
  resolve-settles (suc fuel) s lt =
      elim (Option-cases (find_ready hash calls s.downstream s.staged)) [
        | inl f ↦
            rw (f, resolve_transactions) (find_ready-none s.downstream s.staged f, λ x. omega arith)
        | inr (k, f) ↦
            let (t, got, child) = find_ready-some s.downstream s.staged k f in
            let s' : Chare E I G = record (apply_change hash calls t s) {
              staged = erase_idx s.staged k;
            } in
            let (settled, accounts) =
              resolve-settles fuel s' (omega (arith, length-erase_idx s.staged k t got)) in
            rw (f, resolve_transactions)
              (rw (got, resolve_transactions)
                (
                  settled,
                  λ x. omega (
                    arith,
                    accounts x,
                    count-apply_change x t.from t.since t.change s child,
                    leaving-erase_idx x s.staged k t got,
                    coming-erase_idx x s.staged k t got,
                  ),
                ))
      ]

  add_all-downstream :
      (to : List I) (since : Assoc G ℕ) (s : Chare E I G)
      → ((add_all hash calls to since s).downstream ≡ s.downstream ++ to)
        × ((add_all hash calls to since s).staged ≡ s.staged)
  unfolding add_all add_downstream
  add_all-downstream [] since s = (simp append-nil, refl)
  add_all-downstream (idx ∷ to) since s =
      let (down, staged) = add_all-downstream to since (add_downstream hash calls idx since s) in
      (down ∙ append_assoc s.downstream (idx ∷ []) to, staged)

  -- The transaction that is staged, and the children that come with it.
  stage-counts :
      (x from : I) (to : List I) (since : Assoc G ℕ) (s : Chare E I G)
      → (count x (stage hash calls from to since s).downstream
            + coming x (stage hash calls from to since s).staged
          ≡ count x s.downstream + count x to + coming x s.staged)
        × (leaving x (stage hash calls from to since s).staged
            ≡ leaving x s.staged + count x (from ∷ []))
  unfolding stage
  stage-counts x from [] since s =
      (omega (arith, coming-append x s.staged _), omega (arith, leaving-append x s.staged _))
  stage-counts x from (next ∷ to) since s =
      let (down, staged) = add_all-downstream to since s in
      rw down (
        rw staged (
          omega (arith, coming-append x s.staged _, count-append x s.downstream to),
          omega (arith, leaving-append x s.staged _),
        ))

  -- After a change of the children, no staged transaction is about a child that is there. With
  -- repetitions counted, the children are those of before and the new ones, less the one that is
  -- replaced or removed; a transaction whose child is not there yet waits, and takes effect when
  -- the child comes.
  pub replace_downstream_settles :
      (from : I) (to : List I) (since : Assoc G ℕ) (s : Chare E I G)
      → IsResolved (replace_downstream hash calls from to since s)
        × ((x : I)
            → count x (replace_downstream hash calls from to since s).downstream
                + (count x (from ∷ []) + leaving x s.staged)
                + coming x (replace_downstream hash calls from to since s).staged
              ≡ count x s.downstream
                + (count x to + coming x s.staged)
                + leaving x (replace_downstream hash calls from to since s).staged)
  unfolding replace_downstream
  replace_downstream_settles from to since s =
      let s1 = stage hash calls from to since s in
      let (settled, accounts) = resolve-settles (suc (length s1.staged)) s1 (omega arith) in
      (
        settled,
        λ x.
            let (there, gone) = stage-counts x from to since s in
            omega (arith, accounts x, there, gone),
      )
