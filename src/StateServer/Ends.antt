-- ===== src/StateServer/Ends.antt =====
-- How a server of include/hypercomm/components/state_server.hpp ends.
use hypercomm.Base.{
  ℕ, zero, suc, ◌+◌, ◌<◌, ◌≤◌, ◌≡◌, refl, ap, sym, subst, erase, Option-cases, ◌≢◌, Bool, true,
  false, List, [], ◌∷◌, some, arith, length, ltb, nat_eq, nat_beq, nat_beq_iff, Bool-cases, inl,
  inr, count, count-append, if◌then◌else◌, if_true, if_false,
}
use hypercomm.StateServer.{
  StateServer, new_server, emplace_subscriber, erase_first, done, notified, check_status,
  done_inserting, put_state, acquire_state, find_state,
}

-- What happens to a server, in some order.
pub data Step {S C : Type 0} (destroys : ℕ → Bool)
    : StateServer S C → StateServer S C → Type 0 where
  subscribe : (member : ℕ) (s : StateServer S C) → Step destroys s (emplace_subscriber member s)
  put :
      (key : ℕ) (val : S) (s : StateServer S C) {t : StateServer S C}
      → put_state key val s ≡ some t
      → Step destroys s t
  take :
      (member key : ℕ) (s : StateServer S C) {val : S} {t : StateServer S C}
      → acquire_state destroys member key s ≡ some (val, t)
      → Step destroys s t
  finish : (s : StateServer S C) → Step destroys s (done_inserting destroys s)

pub data Reach {S C : Type 0} (destroys : ℕ → Bool) (s : StateServer S C)
    : StateServer S C → Type 0 where
  here : Reach destroys s s
  next : {t u : StateServer S C} → Reach destroys s t → Step destroys t u → Reach destroys s u

count-erase_first : (x m : ℕ) (ms : List ℕ) → count x (erase_first m ms) ≤ count x ms
unfolding erase_first
count-erase_first x m [] = omega arith
count-erase_first x m (y ∷ ms) =
    ground (arith, nat_beq_iff y m, nat_beq_iff x y, count-erase_first x m ms)

count-erase_first_ne : (x m : ℕ) (ms : List ℕ) → m ≢ x → count x (erase_first m ms) ≡ count x ms
unfolding erase_first
count-erase_first_ne x m [] d = refl
count-erase_first_ne x m (y ∷ ms) d =
    ground (arith, nat_beq_iff y m, nat_beq_iff x y, count-erase_first_ne x m ms d)

length-erase_first : (m : ℕ) (ms : List ℕ) → length (erase_first m ms) ≤ length ms
unfolding erase_first
length-erase_first m [] = omega arith
length-erase_first m (y ∷ ms) = ground (arith, length-erase_first m ms)

-- Whom the destructor of a component leaves.
abbrev others : (ℕ → Bool) → ℕ → List ℕ → List ℕ
others destroys m ms = if destroys m then erase_first m ms else ms

count-others :
    (destroys : ℕ → Bool) (x m : ℕ) (ms : List ℕ) → count x (others destroys m ms) ≤ count x ms
count-others destroys x m ms = ground (arith, count-erase_first x m ms)

count-others_ne :
    (destroys : ℕ → Bool) (x m : ℕ) (ms : List ℕ)
    → m ≢ x
    → count x (others destroys m ms) ≡ count x ms
count-others_ne destroys x m ms d = elim (Bool-cases (destroys m)) [
  | inl h ↦ rw h (count-erase_first_ne x m ms d)
  | inr h ↦ rw h refl
]

length-others :
    (destroys : ℕ → Bool) (m : ℕ) (ms : List ℕ) → length (others destroys m ms) ≤ length ms
length-others destroys m ms = ground (arith, length-erase_first m ms)

-- A subscriber is told, and not more often than it subscribed.
abbrev Hears : ℕ → List ℕ → List ℕ → Type 0
Hears x members told = (0 < count x members → 0 < count x told) × (count x told ≤ count x members)

notified-Hears :
    (fuel : ℕ) (destroys : ℕ → Bool) (x exclude : ℕ) (members : List ℕ)
    → exclude ≢ x
    → length members ≤ fuel
    → Hears x members (notified fuel destroys exclude members)
unfolding notified
notified-Hears zero destroys x exclude [] d h = ((λ p. p), omega arith)
notified-Hears zero destroys x exclude (m ∷ ms) d h = absurd (omega arith)
notified-Hears (suc fuel) destroys x exclude [] d h = ((λ p. p), omega arith)
notified-Hears (suc fuel) destroys x exclude (m ∷ ms) d h = elim (Bool-cases (nat_beq exclude m)) [
  | inl e ↦
      let (some_told, at_most) = notified-Hears fuel destroys x exclude ms d (omega (arith, h)) in
      let other : count x (m ∷ ms) ≡ count x ms =
        ground (arith, nat_beq_iff exclude m, nat_beq_iff x m) in
      rw (notified, e) (rw other (some_told, at_most))
  | inr e ↦
      let (some_told, at_most) =
        notified-Hears fuel destroys x exclude (others destroys m ms) d
          (omega (arith, h, length-others destroys m ms)) in
      rw (notified, e)
        (elim (Bool-cases (nat_beq x m)) [
          | inl same ↦
              rw same ((λ p. omega arith), omega (arith, at_most, count-others destroys x m ms))
          | inr apart ↦
              let kept =
                count-others_ne destroys x m ms (λ q. absurd (ground (arith, nat_beq_iff x m))) in
              rw apart (
                (λ p. let told = some_told (omega (arith, p, kept)) in omega (arith, told)),
                omega (arith, at_most, kept),
              )
        ])
]

module _ {S C : Type 0} (destroys : ℕ → Bool) where
  check_status-empty :
      (exclude : ℕ) (s : StateServer S C)
      → done (check_status destroys exclude s) ≡ true
      → (check_status destroys exclude s).subscribers ≡ []
  unfolding check_status
  check_status-empty exclude s d = elim (Bool-cases (done s)) [
    | inl h ↦ ap (λ (t : StateServer S C). t.subscribers) (if_true _ _ h)
    | inr h ↦
        let same : check_status destroys exclude s ≡ s = if_false _ _ h in
        let still : done s ≡ true = subst (λ t. done t ≡ true) same d in cc
  ]

  put_state-inserting :
      (key : ℕ) (val : S) (s : StateServer S C) {t : StateServer S C}
      → put_state key val s ≡ some t
      → (t.is_inserting ≡ true) × (t.subscribers ≡ s.subscribers) × (t.told ≡ s.told)
  unfolding put_state
  put_state-inserting key val s e = (ground arith, ground arith, ground arith)

  -- A state is taken, and the status is checked.
  acquire_state-checks :
      (member key : ℕ) (s : StateServer S C) {val : S} {t : StateServer S C}
      → acquire_state destroys member key s ≡ some (val, t)
      → (s' : StateServer S C) × (t ≡ check_status destroys member s')
        × (s'.subscribers ≡ s.subscribers)
        × (s'.told ≡ s.told)
  unfolding acquire_state
  acquire_state-checks member key s {val} {t} e = elim (Option-cases (find_state key s)) [
    | inl f ↦ absurd (ground arith)
    | inr (v, f) ↦ (record s { avail = erase key s.avail }, ground arith, refl, refl)
  ]

  -- A component that has subscribed is among the subscribers or was told, and both together not
  -- more often than it subscribed.
  abbrev Heard : ℕ → ℕ → StateServer S C → Type 0
  Heard n x s =
      (0 < n → 0 < count x s.told + count x s.subscribers)
      × (count x s.told + count x s.subscribers ≤ n)

  check_status-Heard :
      (n x exclude : ℕ) (s : StateServer S C)
      → exclude ≢ x
      → Heard n x s
      → Heard n x (check_status destroys exclude s)
  unfolding check_status
  check_status-Heard n x exclude s d (any, most) = elim (Bool-cases (done s)) [
    | inl h ↦
        let told : List ℕ = notified (length s.subscribers) destroys exclude s.subscribers in
        let (some_told, at_most) =
          notified-Hears (length s.subscribers) destroys x exclude s.subscribers d (omega arith) in
        let split = count-append x s.told told in
        rw (check_status, h)
          (
            (λ p. elim (Bool-cases (ltb 0 (count x s.subscribers))) [
              | inl y ↦ let more = some_told (ground arith) in omega (arith, split, more)
              | inr y ↦ let from = any p in ground (arith, split, from)
            ]),
            omega (arith, split, at_most, most),
          )
    | inr h ↦ rw (check_status, h) (any, most)
  ]

  -- The subscriptions of a component in the course of the steps, and that it takes no state.
  abbrev pub subscriptions : ℕ → {s t : StateServer S C} → Reach destroys s t → ℕ
  subscriptions x here = 0
  subscriptions x (next r (subscribe member s)) = subscriptions x r + count x (member ∷ [])
  subscriptions x (next r (put key val s e)) = subscriptions x r
  subscriptions x (next r (take member key s e)) = subscriptions x r
  subscriptions x (next r (finish s)) = subscriptions x r

  abbrev pub TakesNone : ℕ → {s t : StateServer S C} → Reach destroys s t → Type 0
  TakesNone x here = Unit
  TakesNone x (next r (subscribe member s)) = TakesNone x r
  TakesNone x (next r (put key val s e)) = TakesNone x r
  TakesNone x (next r (take member key s e)) = (member ≢ x) × TakesNone x r
  TakesNone x (next r (finish s)) = TakesNone x r

  Reach-Heard :
      (x : ℕ) {t : StateServer S C} (r : Reach destroys new_server t)
      → 0 ≢ x
      → TakesNone x r
      → Heard (subscriptions x r) x t
  unfolding done_inserting
  Reach-Heard x here z n = ((λ p. p), omega arith)
  Reach-Heard x (next r (subscribe member s)) z n =
      let (any, most) = Reach-Heard x r z n in
      let split = count-append x s.subscribers (member ∷ []) in
      (
        (λ p. elim (Bool-cases (ltb 0 (subscriptions x r))) [
          | inl y ↦ let before = any (ground arith) in omega (arith, split, before)
          | inr y ↦ ground (arith, split)
        ]),
        omega (arith, split, most),
      )
  Reach-Heard x (next r (put key val s e)) z n =
      let (_, same, told) = put_state-inserting key val s e in
      rw same (rw told (Reach-Heard x r z n))
  Reach-Heard x (next r (take member key s e)) z n =
      let (s', same, subs, told) = acquire_state-checks member key s e in
      rw same (
        check_status-Heard (subscriptions x r) x member s' n.0
          (rw subs (rw told (Reach-Heard x r z n.1))))
  Reach-Heard x (next r (finish s)) z n =
      check_status-Heard (subscriptions x r) x 0 (record s { is_inserting = false }) z
        (Reach-Heard x r z n)

  -- The server is what a check of the status left.
  abbrev pub IsChecked : StateServer S C → Type 0
  IsChecked t =
      (exclude : ℕ) × (before : StateServer S C) × (t ≡ check_status destroys exclude before)

  checked-empty : (t : StateServer S C) → IsChecked t → done t ≡ true → t.subscribers ≡ []
  checked-empty t (exclude, before, same) d =
      subst (λ u. u.subscribers ≡ []) (sym same)
        (check_status-empty exclude before (subst (λ u. done u ≡ true) same d))

  -- A server that started empty, to which components subscribe at any time. When the status was
  -- checked last, and it has no states left and gets none, it has no subscribers left,
  -- and each component that has subscribed, whose identifier is not zero and that has taken no
  -- state, was invalidated, at least once and at most as often as it subscribed, whichever
  -- components their invalidation destroys.
  pub done-told :
      (x : ℕ) {s : StateServer S C} (r : Reach destroys new_server s)
      → 0 ≢ x
      → TakesNone x r
      → 0 < subscriptions x r
      → IsChecked s
      → done s ≡ true
      → (s.subscribers ≡ []) × (0 < count x s.told) × (count x s.told ≤ subscriptions x r)
  done-told x {s} r z n subscribed c d =
      let empty : s.subscribers ≡ [] = checked-empty s c d in
      let (any, most) = Reach-Heard x r z n in
      let none_left = ap (λ l. count x l) empty in
      let heard = any subscribed in
      (empty, omega (arith, heard, none_left), omega (arith, most, none_left))
