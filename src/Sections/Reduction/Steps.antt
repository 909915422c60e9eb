-- ===== src/Sections/Reduction/Steps.antt =====
-- The steps of a reduction over a section (include/hypercomm/core/locality.hpp): each contribution of
-- a member and each delivery succeeds, and keeps the invariant.
use hypercomm.Base.{
  ℕ, suc, ◌+◌, ◌≤◌, ◌<◌, ◌≡◌, refl, ap, sym, ◌∙◌, subst, Bool, true, false, List, ◌∷◌, Option, some,
  arith, length, Eq, ◌==◌, nat_beq, Bool-cases, inl, inr, All-get_elem?, All-erase_idx, Distinct,
  contains, map, sum, index_of, get_elem?, erase_idx, ==_sound, ==_refl,
}
use hypercomm.Sections.{is_member}
use hypercomm.Sections.Tree.{children, parents, is_member_iff, upstream-member, downstream-member}
use hypercomm.Sections.Broadcast.Flow.{one, serve}
use hypercomm.Sections.Reduction.{
  ReductionPort, Site, SiteSent, Packet, Net, contribute, deliver_packet, after_step,
  receive_contribution,
}
use hypercomm.Sections.Reduction.Weights.{weight, weigh_one, port_to, sum_of, sum_of-erase_idx}
use hypercomm.Sections.Reduction.Flow.{own-IsFlow, arrive-IsFlow, have-le}
use hypercomm.Sections.Reduction.Node.{Advance, receive_advances}
use hypercomm.Sections.Reduction.Contribute.{contribute_advances}
use hypercomm.Sections.Reduction.Place.{
  length-children, children-Distinct, route, length-route, places_apart,
}
use hypercomm.Sections.Reduction.Advance.{Advance-Inv}
use hypercomm.Sections.Reduction.Tally.{to_place, heading, StageOf, Inv, Stage-equal}

one-le : (b : Bool) → one b ≤ 1
one-le true = omega arith
one-le false = omega arith

deliver_packet-runs :
    {I M C K : Type 0} ⦃e : Eq I⦄ (combine : C → List M → Option M) (p : ℕ) (t : Packet I M C K)
    (net : Net I M C K) (port : ReductionPort I) (out : SiteSent I M C K × Site I M C K)
    → get_elem? net.pending p ≡ some t
    → t.port ≡ port
    → receive_contribution combine port t.value (net.sites t.target) ≡ some out
    → deliver_packet combine p net
      ≡ some (after_step (record net { pending = erase_idx net.pending p }) t.target out)
unfolding deliver_packet
deliver_packet-runs combine p t net port out found same runs = rw (found, same, runs) refl

module _ {I M C K : Type 0} ⦃e : Eq I⦄ (combine : C → List M → Option M) (w : M → ℕ) (ms : List I)
    (c : ℕ) (fn : C) (cb : K) (values : I → Option M) (distinct : Distinct ms)
    (adds : (args : List M) → weight w (combine fn args) ≡ sum (map w args)) where
  abbrev pub given : List I → ℕ
  given done = sum_of (λ i. weight w (values i)) done

  -- The invariant, and which members have contributed.
  pub record State (done : List I) (net : Net I M C K) : Type 0 where
    pub own : ℕ → ℕ
    pub have : ℕ → ℕ
    pub fired : ℕ → ℕ
    pub load : ℕ → ℕ
    pub inv : Inv combine w ms c fn cb values distinct net own have fired load (given done)
    pub owned : (i : I) → index_of i ms < length ms → own (index_of i ms) ≡ one (contains i done)

  module _ (done : List I) (net : Net I M C K) (st : State done net) where
    few :
        (i : I)
        → index_of i ms < length ms
        → one (contains i done) ≡ 0
        → st.have (index_of i ms) ≤ length (children ms (index_of i ms))
    few i lt z = omega (
      arith,
      length-children ms distinct (index_of i ms),
      have-le (length ms) (index_of i ms) st.own st.have st.fired _ st.inv.flow st.inv.once lt,
      st.owned i lt,
      z,
    )

    owned_after :
        (i : I)
        → index_of i ms < length ms
        → contains i done ≡ false
        → (j : I) → index_of j ms < length ms
        → serve (index_of i ms) st.own (index_of j ms) ≡ one (contains j (i ∷ done))
    owned_after i lt fresh j lj = elim (Bool-cases (i == j)) [
      | inl same ↦
          subst (λ x. serve (index_of i ms) st.own (index_of x ms) ≡ one (contains x (i ∷ done)))
            (==_sound i j same) (ground (arith, st.owned i lt, fresh, ==_refl i))
      | inr other ↦ ground (
        arith,
        places_apart ms distinct i j lt lj other,
        st.owned j lj,
        e.equal_iff i j,
        e.equal_iff j i,
      )
    ]

    pub contribute-State :
        (i : I)
        → is_member ms i ≡ true
        → contains i done ≡ false
        → (net' : Net I M C K) × (contribute combine ms values fn cb i net ≡ some net')
          × State (i ∷ done) net'
    unfolding contribute
    contribute-State i inside fresh =
        let lt = (is_member_iff ms i).0 inside in
        let k = index_of i ms in
        let zero_own : st.own k ≡ 0 = st.owned i lt ∙ ap one fresh in
        let (sent, s', runs, unfired, step) =
          contribute_advances combine w ms c fn cb adds (children ms k) (parents ms k)
            (route ms distinct c cb i) i (values i) (net.sites i) (st.inv.stages i lt) zero_own
            (few i lt (ap one fresh)) (children-Distinct ms distinct k) (upstream-member ms i lt)
            (downstream-member ms i lt) refl (length-route ms distinct c cb i lt) in
        let own' = serve k st.own in
        let others : (j : I)
            → index_of j ms < length ms
            → i == j ≡ false
            → StageOf combine w ms c fn cb values distinct j (net.sites j) (own' (index_of j ms))
                (st.have (index_of j ms)) (st.fired (index_of j ms)) (st.load (index_of j ms)) =
          λ j lj other.
            Stage-equal combine w ms c fn cb values distinct j
              (ground (arith, places_apart ms distinct i j lt lj other)) refl refl refl
              (st.inv.stages j lj) in
        let (fired', load', inv') =
          Advance-Inv combine w ms c fn cb values distinct i lt net own' st.have st.fired st.load
            (given (i ∷ done)) s' others
            (own-IsFlow (length ms) k st.own st.have st.fired _ st.inv.flow) st.inv.once
            st.inv.packets st.inv.called (weight w (values i)) (omega (arith, st.inv.weighed)) sent
            unfired
            (subst
              (λ o.
                Advance combine w ms c fn cb (children ms k) (route ms distinct c cb i) sent s' o
                  (suc (st.have k)) (st.load k + weight w (values i)))
              (sym (ground (arith, zero_own))) step) in
        (
          after_step net i (sent, s'),
          rw runs refl,
          record {
            own = own';
            have = serve k st.have;
            fired = fired';
            load = load';
            inv = inv';
            owned = owned_after i lt fresh;
          },
        )

    pub deliver-State :
        (p : ℕ) (t : Packet I M C K)
        → get_elem? net.pending p ≡ some t
        → (net' : Net I M C K) × (deliver_packet combine p net ≡ some net') × State done net'
    unfolding deliver_packet
    deliver-State p t found =
        let (lt, port, child) = All-get_elem? _ net.pending p t st.inv.packets found in
        let i = t.target in
        let k = index_of i ms in
        let leaves : heading ms (erase_idx net.pending p) k + one (nat_beq k k)
            ≡ heading ms net.pending k =
          sum_of-erase_idx (to_place ms k) net.pending p t found in
        let itself : one (nat_beq k k) ≡ 1 = ground arith in
        let room : st.have k ≤ length (children ms k) = omega (
          arith,
          length-children ms distinct k,
          have-le (length ms) k st.own st.have st.fired _ st.inv.flow st.inv.once lt,
          st.owned i lt,
          one-le (contains i done),
          leaves,
          itself,
        ) in
        let (sent, s', runs, unfired, step) =
          receive_advances combine w ms c fn cb adds (children ms k) (route ms distinct c cb i)
            t.port.index t.value (net.sites i) (st.inv.stages i lt) room
            (children-Distinct ms distinct k) child in
        let (fired', load', inv') =
          Advance-Inv combine w ms c fn cb values distinct i lt
            (record net { pending = erase_idx net.pending p }) st.own st.have st.fired st.load
            (given done) s' (λ j lj _. st.inv.stages j lj)
            (arrive-IsFlow (length ms) k st.own st.have st.fired _ _ st.inv.flow
              (λ q _. sum_of-erase_idx (to_place ms q) net.pending p t found))
            st.inv.once (All-erase_idx _ net.pending p st.inv.packets) st.inv.called
            (weigh_one w t.value)
            (omega (
              arith,
              st.inv.weighed,
              sum_of-erase_idx (λ (x : Packet I M C K). weigh_one w x.value) net.pending p t found,
            ))
            sent unfired step in
        (
          after_step (record net { pending = erase_idx net.pending p }) i (sent, s'),
          deliver_packet-runs combine p t net (port_to c t.port.index) (sent, s') found port runs,
          record {
            own = st.own;
            have = serve k st.have;
            fired = fired';
            load = load';
            inv = inv';
            owned = st.owned;
          },
        )
