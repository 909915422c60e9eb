-- ===== src/Components/Inbox/Store.antt =====
-- What `default_acceptor_::accept_` (components/component.hpp) makes of the sets when a value
-- arrives, and which values a completed set holds.
use mathlib.Core.Path.{subst}
use hypercomm.Base.{
  ℕ, zero, suc, ◌<◌, ◌≤◌, ◌≡◌, refl, sym, ap, ◌∙◌, inl, inr, true, false, List, [], ◌∷◌, ◌++◌, none,
  some, arith, nat_beq, nat_beq_iff, if◌then◌else◌, length, get_elem?, set, erase_idx, replicate,
  All, append-nil, append_assoc, Bool-cases, Option-cases, length-replicate, length-set,
  All-get_elem?, All-set, All-erase_idx,
}
use hypercomm.Components.Inbox.{InSet, Incoming, has, is_ready, find_gap}
use hypercomm.Components.Inbox.Join.{
  value, column, IsStair, find_gap-none, find_gap-some, value-none, has-set_ne, value-set_append,
  column-set, IsStair-set, find_gap-older,
}

value-replicate : (V : Type 0) (n j : ℕ) → value {V = V} (replicate n none) j ≡ []
value-replicate V zero j = refl
value-replicate V (suc n) zero = refl
value-replicate V (suc n) (suc j) = value-replicate V n j

has-replicate : (V : Type 0) (n j : ℕ) → has {V = V} (replicate n none) j ≡ false
has-replicate V zero j = refl
has-replicate V (suc n) zero = refl
has-replicate V (suc n) (suc j) = has-replicate V n j

append-right-nil : {A : Type 0} (xs ys : List A) → xs ++ ys ≡ [] → ys ≡ []
append-right-nil [] ys h = h
append-right-nil (x ∷ xs) ys h = cc

module _ {V : Type 0} where
  -- What `accept_` makes of the sets when a value arrives for input `i` of `n`.
  abbrev pub store : ℕ → ℕ → V → Incoming V → Incoming V
  store n i v ss = elim (find_gap i ss) [
    | none ↦ set (replicate n none) i (some v) ∷ ss
    | some k ↦ elim (get_elem? ss k) [ none ↦ ss | some s ↦ set ss k (set s i (some v)) ]
  ]

  pub store-none :
      (n i : ℕ) (v : V) (ss : Incoming V)
      → find_gap i ss ≡ none
      → store n i v ss ≡ set (replicate n none) i (some v) ∷ ss
  store-none n i v ss f = rw (f, store)

  pub store-some :
      (n i k : ℕ) (v : V) (ss : Incoming V) (s : InSet V)
      → find_gap i ss ≡ some k
      → get_elem? ss k ≡ some s
      → store n i v ss ≡ set ss k (set s i (some v))
  store-some n i k v ss s f g = rw (f, store) (rw g)

  -- All sets have the width of the component.
  abbrev pub IsWide : ℕ → Incoming V → Type 0
  IsWide n = All (λ s. length s ≡ n)

  pub column-store :
      (n i j : ℕ) (v : V) (ss : Incoming V)
      → IsStair ss
      → IsWide n ss
      → i < n
      → column j (store n i v ss) ≡ column j ss ++ (if nat_beq i j then v ∷ [] else [])
  column-store n i j v ss st wide h = elim (Option-cases (find_gap i ss)) [
    | inl f ↦ rw (
      store-none n i v ss f,
      value-set_append (replicate n none) i j v (rw length-replicate h) (has-replicate V n i),
      value-replicate V n j,
    )
    | inr (k, f) ↦
        let (s, g, lacks) = find_gap-some i k ss f in
        rw (store-some n i k v ss s f g)
          (column-set i k j v ss s st f g (rw (All-get_elem? (λ s. length s ≡ n) ss k s wide g) h))
  ]

  pub store-IsStair : (n i : ℕ) (v : V) (ss : Incoming V) → IsStair ss → IsStair (store n i v ss)
  store-IsStair n i v ss st = elim (Option-cases (find_gap i ss)) [
    | inl f ↦ rw (store-none n i v ss f) (
      λ j hj. elim (Bool-cases (nat_beq i j)) [
        | inl e ↦
            subst (λ x. All (λ t. has t x ≡ true) ss) ((nat_beq_iff i j).0 e) (find_gap-none i ss f)
        | inr e ↦ absurd (fresh j e hj)
      ],
      st,
    )
    | inr (k, f) ↦
        let (s, g, lacks) = find_gap-some i k ss f in
        rw (store-some n i k v ss s f g) (IsStair-set i k v ss s st f g)
  ]
    where
      fresh : (j : ℕ) → nat_beq i j ≡ false → has (set (replicate n none) i (some v)) j ≡ true → ⊥
      fresh j e hj = cc (has-set_ne (replicate n none) i j v e, has-replicate V n j)

  is_ready-has : (s : InSet V) (j : ℕ) → is_ready s ≡ true → j < length s → has s j ≡ true
  unfolding is_ready
  is_ready-has [] j r h = absurd (omega arith)
  is_ready-has (x ∷ s) zero r h = ground arith
  is_ready-has (x ∷ s) (suc j) r h = is_ready-has s j (ground arith) (omega arith)

  has-is_ready : (s : InSet V) → ((j : ℕ) → j < length s → has s j ≡ true) → is_ready s ≡ true
  unfolding is_ready
  has-is_ready [] h = refl
  has-is_ready (x ∷ s) h = rw (h 0 (omega arith)) (has-is_ready s (λ j l. h (suc j) (omega arith)))

  -- The set that a value completes, while no set was complete before, is the oldest one: it holds
  -- the heads of all queues.
  pub column_complete :
      (n i k j : ℕ) (v : V) (ss : Incoming V) (s : InSet V)
      → IsStair ss
      → IsWide n ss
      → All (λ t. is_ready t ≡ false) ss
      → find_gap i ss ≡ some k
      → get_elem? ss k ≡ some s
      → is_ready (set s i (some v)) ≡ true
      → column j (set ss k (set s i (some v)))
        ≡ value (set s i (some v)) j ++ column j (erase_idx ss k)
  column_complete n i k j v [] s st w u f g r = cc
  column_complete n i zero j v (t ∷ []) s st w u f g r = sym (append-nil _)
  column_complete n i zero j v (t ∷ o ∷ ss) s st w u f g r =
      let same : t ≡ s = cc in
      let wide : length (set s i (some v)) ≡ n =
        length-set s i (some v) ∙ sym (ap length same) ∙ w.0 in
      let stair = IsStair-set i 0 v (t ∷ o ∷ ss) s st f g in
      absurd (
        clash
          (has-is_ready o (λ x h.
            (stair.0 x (is_ready-has (set s i (some v)) x r (omega (arith, wide, w.1.0)))).0))
          u.1.0)
    where
      clash : is_ready o ≡ true → is_ready o ≡ false → ⊥
      clash a b = cc
  column_complete n i (suc k) j v (t ∷ ss) s st w u f g r =
      rw (column_complete n i k j v ss s st.1 w.1 u.1 (find_gap-older i k t ss f) g r)
        (append_assoc (value (set s i (some v)) j) (column j (erase_idx ss k)) (value t j))

  value-has : (s : InSet V) (j : ℕ) → value s j ≡ [] → has s j ≡ false
  value-has [] j h = refl
  value-has (none ∷ s) zero h = refl
  value-has (some v ∷ s) zero h = cc
  value-has (none ∷ s) (suc j) h = value-has s j h
  value-has (some v ∷ s) (suc j) h = value-has s j h

  lacking : (s : InSet V) → is_ready s ≡ false → (j : ℕ) × (j < length s) × (has s j ≡ false)
  unfolding is_ready
  lacking [] r = cc
  lacking (none ∷ s) r = (0, omega arith, refl)
  lacking (some v ∷ s) r = let (j, h, l) = lacking s r in (suc j, omega arith, l)

  -- While no set is complete, some queue is empty.
  pub column-empty :
      (n : ℕ) (ss : Incoming V)
      → 0 < n
      → IsStair ss
      → IsWide n ss
      → All (λ t. is_ready t ≡ false) ss
      → (j : ℕ) × (j < n) × (column j ss ≡ [])
  column-empty n [] p st w u = (0, p, refl)
  column-empty n (s ∷ []) p st w u =
      let (j, h, l) = lacking s u.0 in (j, omega (arith, w.0), value-none s j l)
  column-empty n (s ∷ o ∷ ss) p st w u =
      let (j, h, e) = column-empty n (o ∷ ss) p st.1 w.1 u.1 in
      (j, h, rw e (value-none s j (newer j e)))
    where
      newer : (j : ℕ) → column j (o ∷ ss) ≡ [] → has s j ≡ false
      newer j e = elim (Bool-cases (has s j)) [
        | inl yes' ↦
            cc ((st.0 j yes').0, value-has o j (append-right-nil (column j ss) (value o j) e))
        | inr no' ↦ no'
      ]

  pub unready-erase_idx :
      (ss : Incoming V) (k : ℕ) (x : InSet V)
      → All (λ t. is_ready t ≡ false) ss
      → All (λ t. is_ready t ≡ false) (erase_idx (set ss k x) k)
  unready-erase_idx [] k x u = u
  unready-erase_idx (s ∷ ss) zero x u = u.1
  unready-erase_idx (s ∷ ss) (suc k) x u = (u.0, unready-erase_idx ss k x u.1)

  -- A set with one value is not ready if there are several inputs.
  pub single-unready :
      (n i : ℕ) (v : V) → 2 ≤ n → is_ready (set (replicate n none) i (some v)) ≡ false
  unfolding is_ready
  single-unready zero i v h = absurd (omega arith)
  single-unready (suc zero) i v h = absurd (omega arith)
  single-unready (suc (suc n)) zero v h = refl
  single-unready (suc (suc n)) (suc i) v h = refl

  pub erase_idx-IsStair : (ss : Incoming V) (k : ℕ) → IsStair ss → IsStair (erase_idx ss k)
  erase_idx-IsStair [] k st = st
  erase_idx-IsStair (s ∷ ss) zero st = st.1
  erase_idx-IsStair (s ∷ ss) (suc k) st =
      (λ i h. All-erase_idx (λ t. has t i ≡ true) ss k (st.0 i h), erase_idx-IsStair ss k st.1)

  pub store-IsWide : (n i : ℕ) (v : V) (ss : Incoming V) → IsWide n ss → IsWide n (store n i v ss)
  store-IsWide n i v ss w = elim (Option-cases (find_gap i ss)) [
    | inl f ↦
        rw (store-none n i v ss f)
          (length-set (replicate n none) i (some v) ∙ length-replicate n none, w)
    | inr (k, f) ↦
        let (s, g, lacks) = find_gap-some i k ss f in
        rw (store-some n i k v ss s f g) (
          All-set (λ t. length t ≡ n) ss k (set s i (some v)) w
            (length-set s i (some v) ∙ All-get_elem? (λ t. length t ≡ n) ss k s w g))
  ]
