-- ===== src/Sections/Reduction/Exact.antt =====
-- A reduction over a section (include/hypercomm/core/locality.hpp, include/hypercomm/reductions/),
-- under every order of contributions and deliveries.
use hypercomm.Base.{
  some-eq, none-ne_some, Option-cases, ℕ, zero, suc, ◌<◌, ◌≡◌, refl, ap, sym, ◌∙◌, subst, true,
  false, List, [], ◌∷◌, Option, some, arith, length, Eq, inl, inr, Distinct, contains, map, sum,
  index_of, get_elem?, get_elem?-lt, index_of-get_elem?,
}
use hypercomm.Reductions.{Contribution}
use hypercomm.Sections.{is_member}
use hypercomm.Sections.Tree.{children, is_member_iff}
use hypercomm.Sections.Broadcast.Flow.{one, total}
use hypercomm.Sections.Reduction.{
  ReductionPort, Route, Site, Packet, Net, identity_of, contribute, deliver_packet, Reach, here,
  contributes, delivers,
}
use hypercomm.Sections.Reduction.Weights.{weight, port_to, sum_of, queued, queued_weight}
use hypercomm.Sections.Reduction.Flow.{kids_of, fired-eq-one}
use hypercomm.Sections.Reduction.Node.{Stage, idle, active, completed}
use hypercomm.Sections.Reduction.Place.{length-children}
use hypercomm.Sections.Reduction.Tally.{StageOf, in_packets, in_calls}
use hypercomm.Sections.Reduction.Members.{sum_of-contributed}
use hypercomm.Sections.Reduction.Steps.{State, given, contribute-State, deliver-State}

-- What the members start from: the same count of reductions, no open port, and no waiting value.
pub record IsFresh {I M C K : Type 0} ⦃e : Eq I⦄ (ms : List I) (c : ℕ) (start : I → Site I M C K)
    : Type 0 where
  pub distinct : Distinct ms
  pub count : (i : I) → index_of i ms < length ms → (identity_of (start i)).redn_count ≡ c
  pub closed :
      (i : I) → index_of i ms < length ms → (p : ReductionPort I) → (start i).is_open p ≡ false
  pub no_values :
      (i : I) → index_of i ms < length ms → (u : I) → (start i).port_queue (port_to c u) ≡ []

abbrev pub begin : {I M C K : Type 0} → (I → Site I M C K) → Net I M C K
begin start = record { sites = start; pending = []; calls = [] }

-- What may happen next: a contribution of a member, or the delivery of a pending packet.
pub data Event (I : Type 0) : Type 0 where
  contribution_of : I → Event I
  delivery_of : ℕ → Event I

module _ {I M C K : Type 0} ⦃e : Eq I⦄ (combine : C → List M → Option M) (ms : List I)
    (values : I → Option M) (fn : C) (cb : K) where
  abbrev pub happen : Event I → Net I M C K → Option (Net I M C K)
  happen (contribution_of i) net = contribute combine ms values fn cb i net
  happen (delivery_of p) net = deliver_packet combine p net

  -- A member contributes once, and what is delivered is pending.
  abbrev pub IsEnabled : List I → Net I M C K → Event I → Type 0
  IsEnabled done net (contribution_of i) = (is_member ms i ≡ true) × (contains i done ≡ false)
  IsEnabled done net (delivery_of p) = p < length net.pending

total-all_zero : (n : ℕ) (f : ℕ → ℕ) → ((k : ℕ) → k < n → f k ≡ 0) → total n f ≡ 0
total-all_zero zero f h = refl
total-all_zero (suc n) f h =
    omega (arith, total-all_zero n f (λ k lt. h k (omega arith)), h n (omega arith))

deliver_packet-found :
    {I M C K : Type 0} ⦃e : Eq I⦄ (combine : C → List M → Option M) (p : ℕ) (net net' : Net I M C K)
    → deliver_packet combine p net ≡ some net'
    → (t : Packet I M C K) × (get_elem? net.pending p ≡ some t)
unfolding deliver_packet
deliver_packet-found combine p net net' d = elim (Option-cases (get_elem? net.pending p)) [
  | inl out ↦ absurd (none-ne_some (sym (rw out refl) ∙ d))
  | inr found ↦ found
]

module _ {I M C K : Type 0} ⦃e : Eq I⦄ (combine : C → List M → Option M) (w : M → ℕ) (ms : List I)
    (c : ℕ) (fn : C) (cb : K) (values : I → Option M) (start : I → Site I M C K)
    (adds : (args : List M) → weight w (combine fn args) ≡ sum (map w args))
    (fresh : IsFresh ms c start) where
  Stage-full :
      {kids : List I} {outs : List (Route I K)} {s : Site I M C K} {own have fired load : ℕ}
      → Stage combine w ms c fn cb kids outs s own have fired load
      → own ≡ 1
      → have ≡ suc (length kids)
      → fired ≡ 1
  Stage-full (idle own _ _ _ _ _) one_own full = absurd (omega (arith, own, one_own))
  Stage-full (active devs _ _ have few _ _ _) one_own full = absurd (omega (arith, have, few, full))
  Stage-full (completed _ fired _ _) one_own full = fired

  Stage-empty :
      {kids : List I} {outs : List (Route I K)} {s : Site I M C K} {own have fired load : ℕ}
      → Stage combine w ms c fn cb kids outs s own have fired load
      → fired ≡ 1
      → load ≡ 0
  Stage-empty (idle _ fired _ _ _ _) done = absurd (omega (arith, fired, done))
  Stage-empty (active devs _ fired _ _ _ _ _) done = absurd (omega (arith, fired, done))
  Stage-empty (completed _ _ _ load) done = load

  no_queued :
      (i : I)
      → index_of i ms < length ms
      → (us : List I)
      → (queued c (start i).port_queue us ≡ 0) × (queued_weight w c (start i).port_queue us ≡ 0)
  no_queued i lt [] = (refl, refl)
  no_queued i lt (u ∷ us) =
      let empty = fresh.no_values i lt u in
      let rest = no_queued i lt us in
      (rw empty (omega (arith, rest.0)), rw empty (omega (arith, rest.1)))

  begin-State : State combine w ms c fn cb values fresh.distinct adds [] (begin start)
  begin-State = record {
    own = λ _. 0;
    have = λ _. 0;
    fired = λ _. 0;
    load = λ _. 0;
    inv = record {
      flow = λ k h. omega arith;
      once = λ k. omega arith;
      stages = λ i lt.
          let (none_queued, no_weight) = no_queued i lt (children ms (index_of i ms)) in
          idle refl refl (sym none_queued) (sym no_weight) (fresh.count i lt) (fresh.closed i lt);
      packets = tt;
      called = inl (refl, refl);
      weighed = omega (arith, total-all_zero (length ms) (λ _. 0) (λ k h. refl));
    };
    owned = λ i h. refl;
  }

  Reach-State :
      {done : List I} {net : Net I M C K}
      → Reach combine ms values fn cb (begin start) done net
      → State combine w ms c fn cb values fresh.distinct adds done net
  Reach-State here = begin-State
  Reach-State (contributes {done = done} {net = net} {net' = net'} r i inside new runs) =
      let (net'', same, st) =
        contribute-State combine w ms c fn cb values fresh.distinct adds done net (Reach-State r) i
          inside new in
      subst (λ x. State combine w ms c fn cb values fresh.distinct adds (i ∷ done) x)
        (some-eq (sym same ∙ runs)) st
  Reach-State (delivers {done = done} {net = net} {net' = net'} r p runs) =
      let (t, found) = deliver_packet-found combine p net net' runs in
      let (net'', same, st) =
        deliver-State combine w ms c fn cb values fresh.distinct adds done net (Reach-State r) p t
          found in
      subst (λ x. State combine w ms c fn cb values fresh.distinct adds done x)
        (some-eq (sym same ∙ runs)) st

  -- In a fresh reduction over a section without repetitions, whatever the order so far: each
  -- member that has not contributed can contribute, and each pending packet can be delivered. No
  -- assertion fails and nothing aborts on the way.
  pub reduction_progress :
      {done : List I} {net : Net I M C K} (ev : Event I)
      → Reach combine ms values fn cb (begin start) done net
      → IsEnabled combine ms values fn cb done net ev
      → (net' : Net I M C K) × (happen combine ms values fn cb ev net ≡ some net')
  reduction_progress {done} {net} (contribution_of i) r (inside, new) =
      let (net', runs, _) =
        contribute-State combine w ms c fn cb values fresh.distinct adds done net (Reach-State r) i
          inside new in
      (net', runs)
  reduction_progress {done} {net} (delivery_of p) r pending =
      let (t, found) = get_elem?-lt net.pending p pending in
      let (net', runs, _) =
        deliver-State combine w ms c fn cb values fresh.distinct adds done net (Reach-State r) p t
          found in
      (net', runs)

  module _ {done : List I} {net : Net I M C K}
      (st : State combine w ms c fn cb values fresh.distinct adds done net)
      (quiet : net.pending ≡ [])
      (all : (i : I) → is_member ms i ≡ true → contains i done ≡ true) where
    all_own : (k : ℕ) → k < length ms → st.own k ≡ 1
    all_own k lt =
        let (i, found) = get_elem?-lt ms k lt in
        let placed = index_of-get_elem? ms k i fresh.distinct found in
        let inside : index_of i ms < length ms = omega (arith, placed) in
        rw (← placed) (st.owned i inside ∙ ap one (all i ((is_member_iff ms i).1 inside)))

    stage_at :
        (k : ℕ)
        → k < length ms
        → (i : I) × (s : Site I M C K) × (index_of i ms ≡ k)
          × StageOf combine w ms c fn cb values fresh.distinct i s
              (st.own k)
              (st.have k)
              (st.fired k)
              (st.load k)
    stage_at k lt =
        let (i, found) = get_elem?-lt ms k lt in
        let placed = index_of-get_elem? ms k i fresh.distinct found in
        (i, net.sites i, placed, rw (← placed) (st.inv.stages i (omega (arith, placed))))

    full-fired : (k : ℕ) → k < length ms → st.have k ≡ suc (kids_of (length ms) k) → st.fired k ≡ 1
    full-fired k lt full =
        let (i, s, placed, stage) = stage_at k lt in
        Stage-full stage (all_own k lt) (
          full
          ∙ ap suc (
              sym (length-children ms fresh.distinct k)
              ∙ ap (λ q. length (children ms q)) (sym placed)))

    all_fired : (k : ℕ) → k < length ms → st.fired k ≡ 1
    all_fired k lt =
        fired-eq-one (length ms) k st.own st.have st.fired _ st.inv.flow st.inv.once all_own
          (λ j. rw quiet refl) full-fired lt

    no_load : (k : ℕ) → k < length ms → st.load k ≡ 0
    no_load k lt = let (i, s, placed, stage) = stage_at k lt in Stage-empty stage (all_fired k lt)

    result_of :
        0 < length ms
        → (r : Contribution M C K) × (net.calls ≡ (cb, r) ∷ [])
          × (weight w r.msg ≡ given combine w ms c fn cb values fresh.distinct adds done)
    result_of some_member = elim st.inv.called [
      | inl (_, unfired) ↦ absurd (omega (arith, unfired, all_fired 0 some_member))
      | inr (r, calls, _) ↦ (
        r,
        calls,
        omega (
          arith,
          st.inv.weighed,
          total-all_zero (length ms) st.load no_load,
          ap (in_packets w) quiet,
          ap (in_calls w) calls,
        ),
      )
    ]

  -- When all members of a section that is not empty have contributed to a fresh reduction, and
  -- nothing is pending any more, the callback has been called exactly once. Whatever the order of
  -- the contributions and deliveries, the message that it got measures as much as the messages of
  -- all the members together, each counted once, by any measure that the combiner adds up.
  pub reduction_complete :
      {done : List I} {net : Net I M C K}
      → Reach combine ms values fn cb (begin start) done net
      → ((i : I) → is_member ms i ≡ true → contains i done ≡ true)
      → net.pending ≡ []
      → 0 < length ms
      → (r : Contribution M C K) × (net.calls ≡ (cb, r) ∷ [])
        × (weight w r.msg ≡ sum_of (λ i. weight w (values i)) ms)
  reduction_complete r all quiet some_member =
      let (result, calls, measured) = result_of (Reach-State r) quiet all some_member in
      (
        result,
        calls,
        measured
            ∙ sum_of-contributed combine ms values fn cb (begin start) (λ i. weight w (values i))
                fresh.distinct r all,
      )
