-- ===== src/Multistate/Waits.antt =====
-- No set of a component with several inputs is ever complete.
use hypercomm.Base.{
  ℕ, ◌/◌, ◌%◌, ◌<◌, ◌≡◌, refl, subst, Bool, true, List, [], ◌∷◌, Option, none, some, arith, length,
  length-replicate, get_elem?-set_self, set, replicate, is_some, nat_eq, Assoc, lookup, insert,
  Option-cases, Bool-cases, inl, inr, if_true, ◌⊎◌, ◌≢◌, false, nat_beq, nat_beq_iff,
}
use hypercomm.Serialization.Meeting.{insert-cases}
use hypercomm.Multistate.{
  slot, Accepted, refused, fault, waits, stages, stages_directly, find_tag, accept_value,
}

module _ {V : Type 0} where
  -- The values that arrive at the ports, one after the other; a refused value changes nothing.
  -- `none` if a set was staged or an assertion failed.
  unfoldable pub arrive :
      ℕ → (ℕ → Bool) → Assoc ℕ (List (Option V)) → List (ℕ × V) → Option (Assoc ℕ (List (Option V)))
  arrive n valid inbox [] = some inbox
  arrive n valid inbox ((port, v) ∷ vs) = elim (accept_value n valid inbox port v) [
    | refused ↦ arrive n valid inbox vs
    | fault ↦ none
    | waits inbox' ↦ arrive n valid inbox' vs
    | stages inbox' full ↦ none
    | stages_directly key v' ↦ none
  ]

  -- The set of a port has the input of that port.
  abbrev pub IsFilled : ℕ → Assoc ℕ (List (Option V)) → Type 0
  IsFilled n inbox =
      (port : ℕ) (vs : List (Option V))
      → lookup port inbox ≡ some vs
      → is_some (slot (port % n) vs) ≡ true

  find_tag-IsFilled :
      (n port : ℕ) (inbox : Assoc ℕ (List (Option V)))
      → IsFilled n inbox
      → (find_tag (port % n) port inbox ≡ none) ⊎ (find_tag (port % n) port inbox ≡ some none)
  unfolding find_tag
  find_tag-IsFilled n port inbox h = elim (Option-cases (lookup port inbox)) [
    | inl e ↦ inr (rw (find_tag, e) refl)
    | inr (vs, e) ↦ inl (rw (find_tag, e) (if_true _ _ (h port vs e)))
  ]

  started_slot :
      (n port : ℕ) (v : V)
      → 1 < n
      → is_some (slot (port % n) (set (replicate n none) (port % n) (some v))) ≡ true
  started_slot n port v pos =
      let blank : List (Option V) = replicate n none in
      let empty : Option V = none in
      let low : port % n < length blank = omega (arith, length-replicate n empty) in
      ground (arith, get_elem?-set_self blank (port % n) (some v) low)

  started-IsFilled :
      (n port : ℕ) (v : V) (inbox : Assoc ℕ (List (Option V)))
      → 1 < n
      → IsFilled n inbox
      → IsFilled n (insert port (set (replicate n none) (port % n) (some v)) inbox)
  started-IsFilled n port v inbox pos h other vs e =
      elim (insert-cases port other (set (replicate n none) (port % n) (some v)) vs inbox e) [
        | inl (here, same) ↦
            subst (λ q. is_some (slot (q % n) vs) ≡ true) here
              (subst (λ set_of. is_some (slot (port % n) set_of) ≡ true) same
                (started_slot n port v pos))
        | inr (_, old) ↦ h other vs old
      ]

  -- What a value does to sets that have the inputs of their ports.
  abbrev Waits : ℕ → Accepted V → Type 0
  Waits n refused = Unit
  Waits n fault = Unit
  Waits n (waits inbox) = IsFilled n inbox
  Waits n (stages inbox full) = ⊥
  Waits n (stages_directly key v) = ⊥

  accept_value-Waits :
      (n : ℕ) (valid : ℕ → Bool) (inbox : Assoc ℕ (List (Option V))) (port : ℕ) (v : V)
      → 1 < n
      → IsFilled n inbox
      → Waits n (accept_value n valid inbox port v)
  unfolding accept_value
  accept_value-Waits n valid inbox port v pos h = elim (Bool-cases (valid (port / n))) [
    | inr e ↦ rw (accept_value, e) tt
    | inl e ↦
        let several : nat_beq n 1 ≡ false = ground (arith, nat_beq_iff n 1) in
        elim (find_tag-IsFilled n port inbox h) [
          | inl f ↦ rw (accept_value, e) (rw (several, f) tt)
          | inr f ↦ rw (accept_value, e) (rw (several, f) (started-IsFilled n port v inbox pos h))
        ]
  ]

  arrived :
      (n : ℕ) (valid : ℕ → Bool) (inbox : Assoc ℕ (List (Option V))) (vs : List (ℕ × V))
      (out : Accepted V) {inbox' : Assoc ℕ (List (Option V))}
      → 1 < n
      → IsFilled n inbox
      → Waits n out
      → ((i : Assoc ℕ (List (Option V)))
          → IsFilled n i
          → arrive n valid i vs ≡ some inbox'
          → IsFilled n inbox')
      → (elim out [
        | refused ↦ arrive n valid inbox vs
        | fault ↦ none
        | waits i ↦ arrive n valid i vs
        | stages i full ↦ none
        | stages_directly key v' ↦ none
      ])
        ≡ some inbox'
      → IsFilled n inbox'
  arrived n valid inbox vs refused pos h w rest e = rest inbox h e
  arrived n valid inbox vs fault pos h w rest e = cc
  arrived n valid inbox vs (waits i) pos h w rest e = rest i w e
  arrived n valid inbox vs (stages i full) pos h w rest e = cc
  arrived n valid inbox vs (stages_directly key v) pos h w rest e = cc

  arrive-IsFilled :
      (n : ℕ) (valid : ℕ → Bool) (inbox : Assoc ℕ (List (Option V))) (vs : List (ℕ × V))
      {inbox' : Assoc ℕ (List (Option V))}
      → 1 < n
      → IsFilled n inbox
      → arrive n valid inbox vs ≡ some inbox'
      → IsFilled n inbox'
  unfolding arrive
  arrive-IsFilled n valid inbox [] pos h e =
      let same : inbox ≡ _ = cc in subst (λ i. IsFilled n i) same h
  arrive-IsFilled n valid inbox ((port, v) ∷ vs) pos h e =
      arrived n valid inbox vs (accept_value n valid inbox port v) pos h
        (accept_value-Waits n valid inbox port v pos h)
        (λ i g f. arrive-IsFilled n valid i vs pos g f) e

  -- A component with several inputs, whose sets start empty, has taken values at its ports without
  -- a failed assertion. Then no value that comes next completes a set or is staged directly: it is
  -- refused, it fails an assertion, or its set waits. The key of a set is the port of the one input,
  -- and not the key of the state, so that the inputs of one state never meet in one set.
  pub never_stages :
      (n : ℕ) (valid : ℕ → Bool) (vs : List (ℕ × V)) (inbox : Assoc ℕ (List (Option V)))
      → 1 < n
      → arrive n valid [] vs ≡ some inbox
      → (port : ℕ) (v : V) (inbox' : Assoc ℕ (List (Option V))) (full : List (Option V)) (key : ℕ)
      → (accept_value n valid inbox port v ≢ stages inbox' full)
        × (accept_value n valid inbox port v ≢ stages_directly key v)
  unfolding lookup
  never_stages n valid vs inbox pos e port v inbox' full key =
      let filled = arrive-IsFilled n valid [] vs pos (λ p set_of g. absurd (ground arith)) e in
      let waits_on = accept_value-Waits n valid inbox port v pos filled in
      (λ f. subst (λ out. Waits n out) f waits_on, λ f. subst (λ out. Waits n out) f waits_on)
