-- ===== src/TreeBuilder/Counts.antt =====
-- The quiescence count of include/hypercomm/tree_builder/tree_builder.hpp.
use mathlib.Core.Path.{subst}
use hypercomm.Base.{
  ℕ, suc, ◌+◌, ◌≡◌, refl, ap, inl, inr, true, List, [], ◌∷◌, ◌++◌, Option, none, some, arith,
  length, length-append, Bool-cases, Option-cases, Eq, map, lookup,
}
use hypercomm.Base.Int.{ℤ, pos, leb_ℤ}
use hypercomm.Math.{parent, leaves}
use hypercomm.TreeBuilder.{
  Call, receive_upstream, receive_downstream, reg_endpoint, Builder, association_of, set_endpoint,
  put_upstream, put_downstream, find_orphan, find_least, register_endpoint, mark_endpoint, announce,
  send_upstream, reg_upstream, reg_downstream, handle, answer, produce, set_association,
}

some-eq : {A : Type 0} {a b : A} → some a ≡ some b → a ≡ b
some-eq h = cc

none-some : {A : Type 0} {a : A} → ◌≡◌ {A = Option A} none (some a) → ⊥
none-some h = cc

length-map : {A B : Type 0} (f : A → B) (xs : List A) → length (map f xs) ≡ length xs
length-map f [] = refl
length-map f (x ∷ xs) = ap suc (length-map f xs)

-- What holds of the result, if there is one.
abbrev pub Then : {A : Type 0} → (A → Type 0) → Option A → Type 0
Then P none = Unit
Then P (some a) = P a

Then-some : {A : Type 0} (P : A → Type 0) (o : Option A) (a : A) → Then P o → o ≡ some a → P a
Then-some P none a h f = absurd (none-some f)
Then-some P (some x) a h f = subst P (some-eq f) h

-- A result is followed by another step.
Then-map :
    {A B : Type 0} (P : A → Type 0) (Q : B → Type 0) (o : Option A) (f : A → Option B)
    → Then P o
    → ((a : A) → P a → Then Q (f a))
    → Then Q (elim o [ none ↦ none | some a ↦ f a ])
Then-map P Q none f h next = tt
Then-map P Q (some a) f h next = next a h

-- Both cases of a look-up.
Then-either :
    {A B : Type 0} (Q : B → Type 0) (o : Option A) (d : Option B) (f : A → Option B)
    → Then Q d
    → ((a : A) → Then Q (f a))
    → Then Q (elim o [ none ↦ d | some a ↦ f a ])
Then-either Q none d f h next = h
Then-either Q (some a) d f h next = next a

module _ {I : Type 0} ⦃e : Eq I⦄ where
  -- The count is the number of calls sent less the number of calls received.
  abbrev pub Accounts : ℕ → Builder I → Type 0
  Accounts received b = b.consumed + length b.calls ≡ b.produced + received

  -- A step that touches neither the count nor the calls.
  abbrev Same : Builder I → Builder I → Type 0
  Same b b' = (b'.produced ≡ b.produced) × (b'.consumed ≡ b.consumed) × (b'.calls ≡ b.calls)

  set_endpoint-Same : (i : I) (b : Builder I) → Then (Same b) (set_endpoint i b)
  unfolding set_endpoint
  set_endpoint-Same i b =
      Then-either (Same b) (association_of i b) none
        (λ a. some (set_association i (record a { valid_upstream = true }) b)) tt
        (λ a. (refl, refl, refl))

  put_upstream-Same : (elt idx : I) (b : Builder I) → Then (Same b) (put_upstream elt idx b)
  unfolding put_upstream
  put_upstream-Same elt idx b =
      Then-either (Same b) (association_of elt b) none
        (λ a. some (
          set_association elt
            (record a { valid_upstream = true; upstream = a.upstream ++ idx ∷ [] }) b))
        tt (λ a. (refl, refl, refl))

  put_downstream-Same : (elt idx : I) (b : Builder I) → Then (Same b) (put_downstream elt idx b)
  unfolding put_downstream
  put_downstream-Same elt idx b =
      Then-either (Same b) (association_of elt b) none
        (λ a. some (set_association elt (record a { downstream = a.downstream ++ idx ∷ [] }) b)) tt
        (λ a. (refl, refl, refl))

  mark_endpoint-Same :
      (known : Option I) (idx : I) (b : Builder I) → Then (Same b) (mark_endpoint known idx b)
  unfolding mark_endpoint
  mark_endpoint-Same (some elt) idx b = set_endpoint-Same elt b
  mark_endpoint-Same none idx b =
      Then-either (Same b) (lookup idx b.elements) (some b) (λ r. set_endpoint idx b)
        (refl, refl, refl) (λ r. set_endpoint-Same idx b)

  announce-Accounts :
      (idx : I) (n : ℕ) (b : Builder I) → Accounts n b → Accounts (suc n) (announce idx b)
  unfolding announce
  announce-Accounts idx n b h =
      let ls : List ℤ = leaves b.index b.num_nodes in
      let cs : List (ℤ × Call I) = map (λ leaf. (leaf, reg_endpoint b.index idx)) ls in
      let same : length cs ≡ length ls = length-map (λ leaf. (leaf, reg_endpoint b.index idx)) ls in
      omega (arith, h, length-append b.calls cs, same)

  Same-Accounts : (n : ℕ) (b b' : Builder I) → Accounts n b → Same b b' → Accounts n b'
  Same-Accounts n b b' h (p, c, cs) = rw (p, c, cs) h

  register_endpoint-Accounts :
      (known : Option I) (idx : I) (n : ℕ) (b : Builder I)
      → Accounts n b
      → Then (Accounts (suc n)) (register_endpoint known idx b)
  unfolding register_endpoint
  register_endpoint-Accounts known idx n b h = elim (Option-cases b.endpoint) [
    | inr (i, f) ↦ rw (register_endpoint, f) tt
    | inl out ↦
        let b1 : Builder I = record b { endpoint = some idx } in
        rw (register_endpoint, out)
          (Then-map (Same b1) (Accounts (suc n)) (mark_endpoint known idx b1)
            (λ b'. some (announce idx b')) (mark_endpoint-Same known idx b1)
            (λ b' same. announce-Accounts idx n b' (Same-Accounts n b1 b' h same)))
  ]

  send_upstream-Accounts :
      (known : Option I) (node : ℤ) (idx : I) (n : ℕ) (b : Builder I)
      → Accounts n b
      → Then (Accounts n) (send_upstream known node idx b)
  unfolding send_upstream
  send_upstream-Accounts known node idx n b h = elim (Bool-cases (leb_ℤ (pos 0) (parent b.index))) [
    | inl y ↦
        rw (send_upstream, y)
          (omega (
            arith,
            h,
            length-append b.calls (
                (
                  parent b.index,
                  receive_downstream (elim known [ some _ ↦ b.index | none ↦ node ]) idx,
                )
                ∷ []),
          ))
    | inr y ↦
        rw (send_upstream, y)
          (Then-map (Accounts (suc n)) (Accounts n) (register_endpoint known idx b)
            (λ b2. some (produce b2)) (register_endpoint-Accounts known idx n b h)
            (λ b2 h2. omega (arith, h2)))
  ]

  reg_upstream-Accounts :
      (idx : I) (n : ℕ) (b : Builder I)
      → Accounts n b
      → Then (λ r. Accounts n r.1) (reg_upstream idx b)
  unfolding reg_upstream
  reg_upstream-Accounts idx n b h =
      Then-either (λ r. Accounts n r.1) (find_orphan b.elements b) none
        (λ target. elim (put_upstream target idx b) [ none ↦ none | some b' ↦ some (target, b') ])
        tt
        (λ target.
          Then-map (Same b) (λ r. Accounts n r.1) (put_upstream target idx b)
            (λ b'. some (target, b')) (put_upstream-Same target idx b)
            (λ b' same. Same-Accounts n b b' h same))

  reg_downstream-Accounts :
      (known : Option I) (node : ℤ) (idx : I) (n : ℕ) (b : Builder I)
      → Accounts n b
      → Then (λ r. Accounts n r.1) (reg_downstream known node idx b)
  unfolding reg_downstream
  reg_downstream-Accounts known node idx n b h =
      Then-either (λ r. Accounts n r.1) (find_least b.elements b)
        (elim (send_upstream known node idx b) [ none ↦ none | some b' ↦ some (none, b') ])
        (λ target. elim (put_downstream target idx b) [
          | none ↦ none
          | some b' ↦ some (some target, b')
        ])
        (Then-map (Accounts n) (λ r. Accounts n r.1) (send_upstream known node idx b)
          (λ b'. some (none, b')) (send_upstream-Accounts known node idx n b h) (λ b' h'. h'))
        (λ target.
          Then-map (Same b) (λ r. Accounts n r.1) (put_downstream target idx b)
            (λ b'. some (some target, b')) (put_downstream-Same target idx b)
            (λ b' same. Same-Accounts n b b' h same))

  answer-Accounts :
      (node mine : ℤ) (n : ℕ) (r : Option I × Builder I)
      → Accounts n r.1
      → Accounts (suc n) (answer node mine r)
  unfolding answer
  answer-Accounts node mine n (some target, b) h =
      omega (arith, h, length-append b.calls ((node, receive_upstream mine target) ∷ []))
  answer-Accounts node mine n (none, b) h = omega (arith, h)

  -- The quiescence count of an array stays the number of calls that the branch has sent less the
  -- number that it has received, whichever call it receives, as long as no assertion fails.
  pub handle-Accounts :
      (c : Call I) (n : ℕ) (b : Builder I) → Accounts n b → Then (Accounts (suc n)) (handle c b)
  unfolding handle
  handle-Accounts (receive_upstream node idx) n b h =
      Then-map (λ r. Accounts n r.1) (Accounts (suc n)) (reg_upstream idx b)
        (λ r. some (record r.1 { consumed = r.1.consumed + 1 })) (reg_upstream-Accounts idx n b h)
        (λ r h'. omega (arith, h'))
  handle-Accounts (receive_downstream node idx) n b h =
      Then-map (λ r. Accounts n r.1) (Accounts (suc n)) (reg_downstream none node idx b)
        (λ r. some (answer node b.index r)) (reg_downstream-Accounts none node idx n b h)
        (λ r h'. answer-Accounts node b.index n r h')
  handle-Accounts (reg_endpoint node idx) n b h = register_endpoint-Accounts none idx n b h
