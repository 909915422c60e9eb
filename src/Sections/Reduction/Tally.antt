-- ===== src/Sections/Reduction/Tally.antt =====
-- The invariant of a reduction over a section (include/hypercomm/core/locality.hpp): what has been
-- contributed, what is on its way, and how far each member is.
use hypercomm.Base.{
  ℕ, suc, ◌+◌, ◌<◌, ◌≡◌, ◌⊎◌, refl, sym, subst, true, false, List, [], ◌∷◌, Option, arith, length,
  Eq, ◌==◌, nat_beq, Bool-cases, inl, inr, All, Distinct, contains, index_of, ==_sound, ==_refl,
}
use hypercomm.Reductions.{Contribution}
use hypercomm.Sections.Tree.{children}
use hypercomm.Sections.Broadcast.Flow.{one, serve, total}
use hypercomm.Sections.Reduction.{Site, SiteSent, Packet, Net, after_step}
use hypercomm.Sections.Reduction.Weights.{weight, weigh_one, port_to, sum_of}
use hypercomm.Sections.Reduction.Flow.{IsFlow, IsOnce, put}
use hypercomm.Sections.Reduction.Node.{Stage}
use hypercomm.Sections.Reduction.Place.{places_apart, route}

module _ {I M C K : Type 0} ⦃e : Eq I⦄ (ms : List I) where
  -- How many pending packets are on their way to the member at a position.
  abbrev pub to_place : ℕ → Packet I M C K → ℕ
  to_place k t = one (nat_beq (index_of t.target ms) k)

  abbrev pub heading : List (Packet I M C K) → ℕ → ℕ
  heading ts k = sum_of (to_place k) ts

  -- A pending packet is for the port that a member has for one of its children.
  abbrev pub IsPacket : ℕ → Packet I M C K → Type 0
  IsPacket c t =
      (index_of t.target ms < length ms)
      × (t.port ≡ port_to c t.port.index)
      × (contains t.port.index (children ms (index_of t.target ms)) ≡ true)

module _ {I M C K : Type 0} (w : M → ℕ) where
  abbrev pub in_packets : List (Packet I M C K) → ℕ
  in_packets = sum_of (λ (t : Packet I M C K). weigh_one w t.value)

module _ {M C K : Type 0} (w : M → ℕ) where
  abbrev pub in_calls : List (K × Contribution M C K) → ℕ
  in_calls = sum_of (λ (r : K × Contribution M C K). weight w r.1.msg)

module _ {M C K : Type 0} (cb : K) where
  -- The callback has been called as often as the root's reducer has completed: once or not yet.
  abbrev pub IsCalled : List (K × Contribution M C K) → ℕ → Type 0
  IsCalled calls fired =
      ((calls ≡ []) × (fired ≡ 0))
      ⊎ ((r : Contribution M C K) × (calls ≡ (cb, r) ∷ []) × (fired ≡ 1))

module _ {I M C K : Type 0} ⦃e : Eq I⦄ (combine : C → List M → Option M) (w : M → ℕ) (ms : List I)
    (c : ℕ) (fn : C) (cb : K) (values : I → Option M) (distinct : Distinct ms) where
  abbrev pub StageOf : I → Site I M C K → (own have fired load : ℕ) → Type 0
  StageOf i s own have fired load =
      Stage combine w ms c fn cb (children ms (index_of i ms)) (route ms distinct c cb i) s own have
        fired load

  -- What the network holds and has handed over, where `sent` is the weight contributed so far.
  pub record Inv (net : Net I M C K) (own have fired load : ℕ → ℕ) (given : ℕ) : Type 0 where
    pub flow : IsFlow (length ms) own have fired (heading ms net.pending)
    pub once : IsOnce (length ms) fired
    pub stages :
        (i : I)
        → index_of i ms < length ms
        → StageOf i
            (net.sites i)
            (own (index_of i ms))
            (have (index_of i ms))
            (fired (index_of i ms))
            (load (index_of i ms))
    pub packets : All (IsPacket ms c) net.pending
    pub called : IsCalled cb net.calls (fired 0)
    pub weighed : total (length ms) load + in_packets w net.pending + in_calls w net.calls ≡ given

  pub Stage-equal :
      (i : I) {s : Site I M C K} {o o' h h' f f' l l' : ℕ}
      → o ≡ o'
      → h ≡ h'
      → f ≡ f'
      → l ≡ l'
      → StageOf i s o h f l
      → StageOf i s o' h' f' l'
  Stage-equal i eo eh ef el st = rw (← eo, ← eh, ← ef, ← el) st

  module _ (i : I) (lt : index_of i ms < length ms) (net : Net I M C K)
      (own have fired load : ℕ → ℕ) (given : ℕ) (s : Site I M C K)
      (stages : (j : I)
        → index_of j ms < length ms
        → i == j ≡ false
        → StageOf j
            (net.sites j)
            (own (index_of j ms))
            (have (index_of j ms))
            (fired (index_of j ms))
            (load (index_of j ms))) where
    -- One member has gone on, the others are as before.
    pub stages_after :
        (sent : SiteSent I M C K) (fired' : ℕ → ℕ) (v : ℕ)
        → ((k : ℕ) → nat_beq (index_of i ms) k ≡ false → fired' k ≡ fired k)
        → StageOf i s (own (index_of i ms)) (suc (have (index_of i ms))) (fired' (index_of i ms)) v
        → (j : I) → index_of j ms < length ms
        → StageOf j
            ((after_step net i (sent, s)).sites j)
            (own (index_of j ms))
            (serve (index_of i ms) have (index_of j ms))
            (fired' (index_of j ms))
            (put (index_of i ms) v load (index_of j ms))
    stages_after sent fired' v others here j ltj = elim (Bool-cases (i == j)) [
      | inl same ↦
          subst
            (λ x.
              StageOf x ((after_step net i (sent, s)).sites x) (own (index_of x ms))
                (serve (index_of i ms) have (index_of x ms)) (fired' (index_of x ms))
                (put (index_of i ms) v load (index_of x ms)))
            (==_sound i j same)
            (rw (==_refl i) (Stage-equal i refl (ground arith) refl (ground arith) here))
      | inr other ↦
          let apart = places_apart ms distinct i j lt ltj other in
          rw other (
            Stage-equal j refl (ground (arith, apart)) (sym (others (index_of j ms) apart))
              (ground (arith, apart)) (stages j ltj other))
    ]
