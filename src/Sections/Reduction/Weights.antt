-- ===== src/Sections/Reduction/Weights.antt =====
-- What the messages of contributions weigh, by a measure of messages that a combiner adds up, and
-- what waits for the ports of a site (include/hypercomm/reductions/reduction_port.hpp).
pub use hypercomm.Base.{sum_of, sum_of-append}
use hypercomm.Base.{
  ℕ, zero, suc, get_elem?, erase_idx, ◌+◌, ◌≡◌, refl, ap, true, false, List, [], ◌∷◌, ◌++◌, Option,
  none, some, arith, length, Eq, ◌==◌, Bool-cases, inl, inr, Distinct, contains, map, sum,
  if◌then◌else◌, count, nat_beq_iff, sym, subst, ==_sound,
}
use hypercomm.Reductions.{Contribution}
use hypercomm.Reductions.Gather.{messages, ahead_of}
use hypercomm.Sections.Reduction.{ReductionPort, same_port}

-- The weight of a message, none of a null one.
abbrev pub weight : {M : Type 0} → (M → ℕ) → Option M → ℕ
weight w none = 0
weight w (some m) = w m

weigh-ahead_of :
    {M : Type 0} (w : M → ℕ) (m : Option M) (ms : List M)
    → sum (map w (ahead_of m ms)) ≡ weight w m + sum (map w ms)
weigh-ahead_of w none ms = omega arith
weigh-ahead_of w (some m) ms = refl

module _ {M C K : Type 0} (w : M → ℕ) where
  abbrev pub weigh_one : Option (Contribution M C K) → ℕ
  weigh_one none = 0
  weigh_one (some c) = weight w c.msg

  abbrev pub weigh : List (Option (Contribution M C K)) → ℕ
  weigh [] = 0
  weigh (v ∷ vs) = weigh_one v + weigh vs

  pub weigh-append :
      (us vs : List (Option (Contribution M C K))) → weigh (us ++ vs) ≡ weigh us + weigh vs
  weigh-append [] vs = omega arith
  weigh-append (u ∷ us) vs = omega (arith, weigh-append us vs)

  pub weigh-messages :
      (vs : List (Option (Contribution M C K))) → sum (map w (messages vs)) ≡ weigh vs
  weigh-messages [] = refl
  weigh-messages (none ∷ vs) = omega (arith, weigh-messages vs)
  weigh-messages (some c ∷ vs) =
      omega (arith, weigh-ahead_of w c.msg (messages vs), weigh-messages vs)

abbrev pub port_to : {I : Type 0} → ℕ → I → ReductionPort I
port_to c u = record { count = c; index = u }

-- How many values wait for the ports of the children, and what they weigh.
abbrev pub queued : {I V : Type 0} → ℕ → (ReductionPort I → List V) → List I → ℕ
queued c q [] = 0
queued c q (u ∷ us) = length (q (port_to c u)) + queued c q us

abbrev pub queued_weight :
    {I M C K : Type 0}
    → (M → ℕ)
    → ℕ
    → (ReductionPort I → List (Option (Contribution M C K)))
    → List I
    → ℕ
queued_weight w c q [] = 0
queued_weight w c q (u ∷ us) = weigh w (q (port_to c u)) + queued_weight w c q us

module _ {I M C K : Type 0} ⦃e : Eq I⦄ (w : M → ℕ) (c : ℕ)
    (q : ReductionPort I → List (Option (Contribution M C K))) (i : I)
    (vs : List (Option (Contribution M C K))) where
  -- The queues where those for one port are replaced.
  abbrev pub replaced : ReductionPort I → List (Option (Contribution M C K))
  replaced p = if same_port (port_to c i) p then vs else q p

  replaced-other : (u : I) → i == u ≡ false → replaced (port_to c u) ≡ q (port_to c u)
  replaced-other u other = rw (other, (nat_beq_iff c c).1 refl) refl

  replaced-same : (u : I) → i == u ≡ true → replaced (port_to c u) ≡ vs
  replaced-same u same = rw (same, (nat_beq_iff c c).1 refl) refl

  pub queued-other :
      (us : List I)
      → count i us ≡ 0
      → (queued c replaced us ≡ queued c q us)
        × (queued_weight w c replaced us ≡ queued_weight w c q us)
  queued-other [] h = (refl, refl)
  queued-other (u ∷ us) h = elim (Bool-cases (i == u)) [
    | inl same ↦ absurd (ground arith)
    | inr other ↦
        let rest = queued-other us (ground arith) in
        (rw (replaced-other u other, rest.0) refl, rw (replaced-other u other, rest.1) refl)
  ]

  pub queued-replaced :
      (us : List I)
      → Distinct us
      → contains i us ≡ true
      → (queued c replaced us + length (q (port_to c i)) ≡ queued c q us + length vs)
        × (queued_weight w c replaced us + weigh w (q (port_to c i))
            ≡ queued_weight w c q us + weigh w vs)
  queued-replaced [] d h = cc
  queued-replaced (u ∷ us) d h = elim (Bool-cases (i == u)) [
    | inl same ↦
        let at_u : u ≡ i = sym (==_sound i u same) in
        let rest = queued-other us (subst (λ x. count x us ≡ 0) at_u d.0) in
        (
          rw (replaced-same u same, rest.0, at_u) (omega arith),
          rw (replaced-same u same, rest.1, at_u) (omega arith),
        )
    | inr other ↦
        let rest = queued-replaced us d.1 (ground arith) in
        (
          rw (replaced-other u other) (omega (arith, rest.0)),
          rw (replaced-other u other) (omega (arith, rest.1)),
        )
  ]

pub sum_of-erase_idx :
    {A : Type 0} (f : A → ℕ) (xs : List A) (p : ℕ) (x : A)
    → get_elem? xs p ≡ some x
    → sum_of f (erase_idx xs p) + f x ≡ sum_of f xs
sum_of-erase_idx f [] p x h = cc
sum_of-erase_idx f (y ∷ xs) zero x h = let same : y ≡ x = cc in omega (arith, ap f same)
sum_of-erase_idx f (y ∷ xs) (suc p) x h = omega (arith, sum_of-erase_idx f xs p x h)
