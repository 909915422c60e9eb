-- ===== src/Sections/Reduction/Node.antt =====
-- What a step does to the site of a member of a section: `vil::local_contribution` of
-- include/hypercomm/core/locality.hpp, and the arrival of a contribution at a port.
use hypercomm.Base.{
  ℕ, suc, ◌+◌, ◌≤◌, ◌≡◌, ◌⊎◌, refl, ◌∙◌, true, false, List, [], ◌∷◌, ◌++◌, Option, some, arith,
  length, ltb, Eq, nat_beq_iff, Bool-cases, inl, inr, Distinct, contains, map, sum, length-append,
}
use hypercomm.Reductions.{Contribution, Reducer}
use hypercomm.Reductions.Gather.{messages, total, action-suspended, last_reduces}
use hypercomm.Sections.Reduction.{
  ReductionPort, Route, ReducerNode, Site, SiteSent, identity_of, nothing_sent, send_result,
  set_node, complete_reducer, set_port_queue, accept_contribution, receive_contribution,
}
use hypercomm.Sections.Reduction.Weights.{
  weight, weigh_one, weigh, weigh-append, weigh-messages, port_to, queued, queued_weight,
  queued-replaced,
}

module _ {I M C K : Type 0} ⦃e : Eq I⦄ (combine : C → List M → Option M) (w : M → ℕ) (ms : List I)
    (c : ℕ) (fn : C) (cb : K) where
  -- The reducer of a member with a number of children, while it waits.
  abbrev pub holding : ℕ → List (Option (Contribution M C K)) → Reducer (List I) M C K
  holding n devs = record {
    imprintable = ms;
    epoch = c;
    combiner = some fn;
    n_ustream = suc n;
    devs = devs;
    persistent = true;
  }

  abbrev pub node_with :
      List (Route I K) → ℕ → List (Option (Contribution M C K)) → ReducerNode I M C K
  node_with outs n devs = record { reducer = holding n devs; outputs = outs }

  -- How far a member with these children and this output is: whether it has contributed, how many
  -- values it has, how often its reducer has completed, and what the values weigh that it keeps.
  pub data Stage (kids : List I) (outs : List (Route I K)) (s : Site I M C K)
      (own have fired load : ℕ) : Type 0 where
    idle :
        own ≡ 0
        → fired ≡ 0
        → have ≡ queued c s.port_queue kids
        → load ≡ queued_weight w c s.port_queue kids
        → (identity_of s).redn_count ≡ c
        → ((p : ReductionPort I) → s.is_open p ≡ false)
        → Stage kids outs s own have fired load
    active :
        (devs : List (Option (Contribution M C K)))
        → own ≡ 1
        → fired ≡ 0
        → have ≡ length devs
        → length devs ≤ length kids
        → load ≡ weigh w devs
        → s.components c ≡ some (node_with outs (length kids) devs)
        → ((u : I) → contains u kids ≡ true → s.is_open (port_to c u) ≡ true)
        → Stage kids outs s own have fired load
    completed :
        own ≡ 1
        → fired ≡ 1
        → have ≡ suc (length kids)
        → load ≡ 0
        → Stage kids outs s own have fired load

  -- What a step leads to: the site keeps its values, or sends their combination on.
  abbrev pub Advance :
      List I → List (Route I K) → SiteSent I M C K → Site I M C K → (own have load : ℕ) → Type 0
  Advance kids outs sent s own have load =
      ((sent ≡ nothing_sent) × Stage kids outs s own have 0 load)
      ⊎ ((r : Contribution M C K) × (sent ≡ send_result r outs)
          × (weight w r.msg ≡ load)
          × Stage kids outs s own have 1 0)

  module _ (adds : (args : List M) → weight w (combine fn args) ≡ sum (map w args)) (kids : List I)
      (outs : List (Route I K)) where
    -- A value for the reducer of a member that has contributed.
    pub accept_advances :
        (devs : List (Option (Contribution M C K))) (v : Option (Contribution M C K))
        (s : Site I M C K)
        → length devs ≤ length kids
        → ((u : I) → contains u kids ≡ true → s.is_open (port_to c u) ≡ true)
        → (sent : SiteSent I M C K) × (s' : Site I M C K) × (accept_contribution combine c
              (node_with outs (length kids) devs)
              v
              s
            ≡ some (sent, s'))
          × Advance kids outs sent s' 1 (suc (length devs)) (weigh w devs + weigh_one w v)
    unfolding accept_contribution
    accept_advances devs v s h opened = elim (Bool-cases (ltb (length devs) (length kids))) [
      | inl more ↦
          let kept = action-suspended combine (holding (length kids) devs) v (ground arith) in
          (
            nothing_sent,
            set_node c (some (node_with outs (length kids) (devs ++ v ∷ []))) s,
            rw (kept, accept_contribution) refl,
            inl (
              refl,
              active (devs ++ v ∷ []) refl refl (omega (arith, length-append devs (v ∷ [])))
                  (ground (arith, length-append devs (v ∷ [])))
                  (omega (arith, weigh-append w devs (v ∷ []))) (rw ((nat_beq_iff c c).1 refl) refl)
                  opened,
            ),
          )
      | inr last ↦
          let (r', runs, _, _) =
            last_reduces combine (holding (length kids) devs) v fn (ground arith) refl in
          let added : weigh w (devs ++ v ∷ []) ≡ weigh w devs + weigh_one w v =
            omega (arith, weigh-append w devs (v ∷ [])) in
          let r : Contribution M C K = total combine fn (devs ++ v ∷ []) in
          (
            send_result r outs,
            complete_reducer c s,
            rw (runs, accept_contribution) refl,
            inr (
              r,
              refl,
              adds (messages (devs ++ v ∷ [])) ∙ weigh-messages w (devs ++ v ∷ []) ∙ added,
              completed refl refl (ground arith) refl,
            ),
          )
    ]

    -- A value that arrives at the port of a child.
    pub receive_advances :
        {own have fired load : ℕ} (i : I) (v : Option (Contribution M C K)) (s : Site I M C K)
        → Stage kids outs s own have fired load
        → have ≤ length kids
        → Distinct kids
        → contains i kids ≡ true
        → (sent : SiteSent I M C K) × (s' : Site I M C K) × (receive_contribution combine
              (port_to c i)
              v
              s
            ≡ some (sent, s'))
          × (fired ≡ 0)
          × Advance kids outs sent s' own (suc have) (load + weigh_one w v)
    unfolding receive_contribution identity_of
    receive_advances i v s (idle own fired have load redn closed) h d inside =
        let q = s.port_queue (port_to c i) in
        let longer = queued-replaced w c s.port_queue i (q ++ v ∷ []) kids d inside in
        (
          nothing_sent,
          set_port_queue (port_to c i) (q ++ v ∷ []) s,
          rw (closed (port_to c i)) refl,
          fired,
          inl (
            refl,
            idle own refl (omega (arith, have, longer.0, length-append q (v ∷ [])))
                (omega (arith, load, longer.1, weigh-append w q (v ∷ []))) redn closed,
          ),
        )
    receive_advances i v s (active devs own fired have few load node opened) h d inside =
        let (sent, s', runs, step) = accept_advances devs v s few opened in
        (sent, s', rw (opened i inside, node) runs, fired, rw (own, have, load) step)
    receive_advances i v s (completed own fired have load) h d inside = absurd (omega (arith, have))
