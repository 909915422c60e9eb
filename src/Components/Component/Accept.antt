-- ===== src/Components/Component/Accept.antt =====
-- `accept_` of include/hypercomm/components/component.hpp for components with several inputs.
use mathlib.Core.Path.{subst}
use hypercomm.Base.{
  ℕ, ◌≤◌, ◌<◌, ◌≡◌, sym, ◌⊎◌, inl, inr, true, false, [], ◌∷◌, ◌++◌, none, some, arith, nat_beq,
  nat_beq_iff, if◌then◌else◌, length, get_elem?, set, erase_idx, All, Bool-cases, Option-cases,
  All-set, All-erase_idx, erase_idx-set,
}
use hypercomm.Components.{Context}
use hypercomm.Components.Inbox.{InSet, Incoming, is_ready, find_gap}
use hypercomm.Components.Inbox.Join.{value, column, IsStair, find_gap-some, IsStair-set}
use hypercomm.Components.Inbox.Store.{
  store, store-none, store-some, IsWide, column-store, store-IsStair, column_complete, column-empty,
  unready-erase_idx, single-unready, erase_idx-IsStair, store-IsWide,
}
use hypercomm.Components.Component.{Com, Behaviour, done, conclude, stage_action, fill_gap, accept}

-- The sets of an active component with several inputs, between calls.
pub record IsJoined {S D V L : Type 0} (c : Com S D V L) : Type 0 where
  pub online : c.active ≡ true
  pub several : 2 ≤ c.n_inputs
  pub stair : IsStair c.incoming
  pub wide : IsWide c.n_inputs c.incoming
  pub waiting : All (λ t. is_ready t ≡ false) c.incoming

module _ {E S D V L : Type 0} (ctx : Context E D V) (beh : Behaviour E S V L) (c : Com S D V L)
    (i : ℕ) (v : V) (env : E) (joined : IsJoined c) (within : i < c.n_inputs) where
  -- The sets after the value was stored.
  abbrev stored : Incoming V
  stored = store c.n_inputs i v c.incoming

  several : nat_beq c.n_inputs 1 ≡ false
  several = elim (Bool-cases (nat_beq c.n_inputs 1)) [
    | inl e ↦ absurd (omega (arith, (nat_beq_iff c.n_inputs 1).0 e, joined.several))
    | inr e ↦ e
  ]

  -- What holds of sets between calls.
  abbrev pub Rests : Incoming V → Type 0
  Rests ss = IsStair ss × IsWide c.n_inputs ss × All (λ t. is_ready t ≡ false) ss

  -- The value is at the end of its queue, and the component waits: another queue is empty.
  abbrev pub Waits : Incoming V → Type 0
  Waits new =
      (accept ctx beh c i (some v) env ≡ done (record c { incoming = new }) env)
      × Rests new
      × ((j : ℕ) × (j < c.n_inputs) × (column j new ≡ []))

  -- The action runs with the heads of all queues; what is kept is the queues without them.
  abbrev pub Fires : Incoming V → Type 0
  Fires new =
      (k : ℕ) × (s : InSet V) × (accept ctx beh c i (some v) env ≡ (
        let r = beh.action c.state c.persistent s in
        conclude ctx beh (record c { incoming = new; state = r.state; persistent = r.persistent })
          (λ ss. erase_idx ss k) r.outcome env))
      × (is_ready s ≡ true)
      × ((j : ℕ) → column j new ≡ value s j ++ column j (erase_idx new k))
      × Rests (erase_idx new k)

  stored-Rests : All (λ t. is_ready t ≡ false) stored → Rests stored
  stored-Rests u = (
    store-IsStair c.n_inputs i v c.incoming joined.stair,
    store-IsWide c.n_inputs i v c.incoming joined.wide,
    u,
  )

  Rests-empty : Rests stored → (j : ℕ) × (j < c.n_inputs) × (column j stored ≡ [])
  Rests-empty (st, w, u) = column-empty c.n_inputs stored (omega (arith, joined.several)) st w u

  accept-gapless : find_gap i c.incoming ≡ none → Waits stored
  unfolding accept
  accept-gapless f =
      let e = store-none c.n_inputs i v c.incoming f in
      let u : All (λ t. is_ready t ≡ false) stored =
        rw e (single-unready c.n_inputs i v joined.several, joined.waiting) in
      (rw (several, f, e), stored-Rests u, Rests-empty (stored-Rests u))

  accept-filled :
      (k : ℕ) (s : InSet V)
      → find_gap i c.incoming ≡ some k
      → get_elem? c.incoming k ≡ some s
      → accept ctx beh c i (some v) env ≡ (
          let c1 : Com S D V L = record c { incoming = set c.incoming k (set s i (some v)) } in
          if is_ready (set s i (some v))
          then (stage_action ctx beh c1 (set s i (some v)) (λ ss. erase_idx ss k) env).1
          else done c1 env)
  unfolding accept fill_gap
  accept-filled k s f g = rw (several, f) (rw (fill_gap, g))

  staged :
      (c1 : Com S D V L) (s : InSet V) (cleanup : Incoming V → Incoming V)
      → c1.active ≡ true
      → (stage_action ctx beh c1 s cleanup env).1 ≡ (
          let r = beh.action c1.state c1.persistent s in
          conclude ctx beh
            (record c1 { state = r.state; persistent = r.persistent })
            cleanup
            r.outcome
            env)
  unfolding stage_action
  staged c1 s cleanup h = rw h

  fires :
      (k : ℕ) (s : InSet V)
      → find_gap i c.incoming ≡ some k
      → get_elem? c.incoming k ≡ some s
      → is_ready (set s i (some v)) ≡ true
      → Fires (set c.incoming k (set s i (some v)))
  fires k s f g r =
      let new : Incoming V = set c.incoming k (set s i (some v)) in
      let st : IsStair new = IsStair-set i k v c.incoming s joined.stair f g in
      let w : IsWide c.n_inputs new =
        subst (IsWide c.n_inputs) (store-some c.n_inputs i k v c.incoming s f g)
          (store-IsWide c.n_inputs i v c.incoming joined.wide) in
      (
        k,
        set s i (some v),
        rw (accept-filled k s f g, r) (staged (record c { incoming = new }) _ _ joined.online),
        r,
        λ j. rw (erase_idx-set c.incoming k (set s i (some v))) (
            column_complete c.n_inputs i k j v c.incoming s joined.stair joined.wide joined.waiting
              f g r),
        (
          erase_idx-IsStair new k st,
          All-erase_idx (λ t. length t ≡ c.n_inputs) new k w,
          unready-erase_idx c.incoming k (set s i (some v)) joined.waiting,
        ),
      )

  accept-gap : (k : ℕ) → find_gap i c.incoming ≡ some k → Waits stored ⊎ Fires stored
  accept-gap k f =
      let (s, g, lacks) = find_gap-some i k c.incoming f in
      let e = store-some c.n_inputs i k v c.incoming s f g in
      elim (Bool-cases (is_ready (set s i (some v)))) [
        | inl r ↦ inr (subst Fires (sym e) (fires k s f g r))
        | inr r ↦
            let u : All (λ t. is_ready t ≡ false) stored = rw e (
              All-set (λ t. is_ready t ≡ false) c.incoming k (set s i (some v)) joined.waiting r) in
            inl (rw (accept-filled k s f g, r, e), stored-Rests u, Rests-empty (stored-Rests u))
      ]

  -- A value that arrives for an input of a waiting component goes to the end of the input's queue
  -- and no other queue changes. Then either some queue is empty and the component waits, or the
  -- action runs on the set of the heads of all queues, which leave them, and no other set is
  -- complete: the k-th values of the inputs are joined, in the order of arrival.
  pub accept_joins :
      (new : Incoming V) × ((j : ℕ)
        → column j new ≡ column j c.incoming ++ (if nat_beq i j then v ∷ [] else []))
      × (Waits new ⊎ Fires new)
  accept_joins = (
    stored,
    λ j. column-store c.n_inputs i j v c.incoming joined.stair joined.wide within,
    elim (Option-cases (find_gap i c.incoming)) [
      | inl f ↦ inl (accept-gapless f)
      | inr (k, f) ↦ accept-gap k f
    ],
  )
