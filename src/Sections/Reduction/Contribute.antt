-- ===== src/Sections/Reduction/Contribute.antt =====
-- A member of a section makes its contribution: `vil::local_contribution` of
-- include/hypercomm/core/locality.hpp.
use hypercomm.Base.{
  ℕ, suc, ◌+◌, ◌≤◌, ◌≡◌, refl, subst, true, false, List, [], ◌∷◌, ◌++◌, Option, some, arith, length,
  Eq, ◌==◌, nat_beq_iff, Bool-cases, inl, inr, Distinct, contains, map, sum, length-append, count,
  if◌then◌else◌, ==_sound, ==_refl,
}
use hypercomm.Sections.{Identity, next_reduction, upstream, downstream}
use hypercomm.Reductions.{Contribution, new_reducer, feed}
use hypercomm.Reductions.Gather.{feed-waiting}
use hypercomm.Sections.Reduction.{
  ReductionPort, Route, Site, SiteSent, identity_of, same_port, set_port_queue, accept_contribution,
  connect_port, connect_all, outputs_of, local_contribution,
}
use hypercomm.Sections.Reduction.Weights.{
  weight, weigh, weigh-append, port_to, queued, queued_weight, queued-other,
}
use hypercomm.Sections.Reduction.Node.{
  holding, node_with, Stage, idle, active, completed, Advance, accept_advances,
}

module _ {I : Type 0} ⦃e : Eq I⦄ where
  ne-contains : (a b : I) (xs : List I) → contains b xs ≡ true → count a xs ≡ 0 → (a == b) ≡ false
  ne-contains a b [] h d = absurd (ground arith)
  ne-contains a b (x ∷ xs) h d = elim (Bool-cases (b == x)) [
    | inl here ↦ rw (==_sound b x here) (ground arith)
    | inr there ↦ ne-contains a b xs (ground arith) (ground arith)
  ]

module _ {I M C K : Type 0} ⦃e : Eq I⦄ (combine : C → List M → Option M) (w : M → ℕ) (ms : List I)
    (c : ℕ) (fn : C) (cb : K) where
  abbrev connected : I → Site I M C K → Site I M C K
  connected u s = record (set_port_queue (port_to c u) [] s) {
    is_open = λ p. if same_port (port_to c u) p then true else s.is_open p;
  }

  -- The ports of all the children are opened, and what waits for them goes to the inbox.
  connect_all-opens :
      (us : List I) (box : List (Option (Contribution M C K))) (s : Site I M C K)
      → Distinct us
      → ((u : I) → contains u us ≡ true → s.is_open (port_to c u) ≡ false)
      → (box' : List (Option (Contribution M C K))) × (s' : Site I M C K) × (connect_all c us
            (box, s)
          ≡ some (box', s'))
        × (length box' ≡ length box + queued c s.port_queue us)
        × (weigh w box' ≡ weigh w box + queued_weight w c s.port_queue us)
        × ((p : ReductionPort I) → s.is_open p ≡ true → s'.is_open p ≡ true)
        × ((u : I) → contains u us ≡ true → s'.is_open (port_to c u) ≡ true)
  unfolding connect_all connect_port
  connect_all-opens [] box s d closed =
      (box, s, refl, omega arith, omega arith, λ p h. h, λ u h. absurd (ground arith))
  connect_all-opens (u ∷ us) box s d closed =
      let q = s.port_queue (port_to c u) in
      let still : (v : I) → contains v us ≡ true → (connected u s).is_open (port_to c v) ≡ false =
        λ v h. rw (ne-contains u v us h d.0) (ground (arith, closed v, h)) in
      let (box', s', runs, len, wt, keeps, opens) =
        connect_all-opens us (box ++ q) (connected u s) d.1 still in
      let others = queued-other w c s.port_queue u [] us d.0 in
      let first : s.is_open (port_to c u) ≡ false = closed u (ground (arith, ==_refl u)) in
      (
        box',
        s',
        rw first runs,
        omega (arith, len, length-append box q, others.0),
        omega (arith, wt, weigh-append w box q, others.1),
        λ p h. keeps p (ground (arith, h)),
        λ v h. elim (Bool-cases (v == u)) [
          | inl same ↦
              keeps (port_to c v) (rw (==_sound v u same, (nat_beq_iff c c).1 refl, ==_refl u) refl)
          | inr other ↦ opens v (ground arith)
        ],
      )

  module _ (adds : (args : List M) → weight w (combine fn args) ≡ sum (map w args))
      (kids dstream : List I) (outs : List (Route I K)) where
    abbrev own_value : Option M → Option (Contribution M C K)
    own_value m = some (record { msg = m; combiner = some fn; callback = some cb })

    Advance-equal :
        {sent : SiteSent I M C K} {s : Site I M C K} {own have have' load load' : ℕ}
        → have ≡ have'
        → load ≡ load'
        → Advance combine w ms c fn cb kids outs sent s own have load
        → Advance combine w ms c fn cb kids outs sent s own have' load'
    Advance-equal {sent} {s} {own} {have} {have'} {load} {load'} h l step =
        subst (λ n. Advance combine w ms c fn cb kids outs sent s own n load') h
          (subst (λ n. Advance combine w ms c fn cb kids outs sent s own have n) l step)

    local_contribution-runs :
        (mine : I) (m : Option M) (ident : Identity) (s s1 : Site I M C K)
        (box : List (Option (Contribution M C K))) (out : SiteSent I M C K × Site I M C K)
        → next_reduction (identity_of s) ≡ (c, ident)
        → upstream ms mine ≡ some kids
        → downstream ms mine ≡ some dstream
        → outs ≡ outputs_of dstream (port_to c mine) cb
        → length outs ≡ 1
        → connect_all c kids ([], record s { identity = some ident }) ≡ some (box, s1)
        → feed combine (new_reducer ms c (some fn) (suc (length kids))) box
          ≡ some (holding combine w ms c fn cb (length kids) box)
        → accept_contribution combine c
            (node_with combine w ms c fn cb outs (length kids) box)
            (own_value m)
            s1
          ≡ some out
        → local_contribution combine ms mine m fn cb s ≡ some out
    unfolding local_contribution
    local_contribution-runs mine m ident s s1 box out next up down out_eq single conn fed acc =
        rw (next, up, down, ← out_eq, single, conn, fed) acc

    -- A member that has not contributed makes its contribution.
    pub contribute_advances :
        {own have fired load : ℕ} (mine : I) (m : Option M) (s : Site I M C K)
        → Stage combine w ms c fn cb kids outs s own have fired load
        → own ≡ 0
        → have ≤ length kids
        → Distinct kids
        → upstream ms mine ≡ some kids
        → downstream ms mine ≡ some dstream
        → outs ≡ outputs_of dstream (port_to c mine) cb
        → length outs ≡ 1
        → (sent : SiteSent I M C K) × (s' : Site I M C K) × (local_contribution combine ms mine m fn
              cb s
            ≡ some (sent, s'))
          × (fired ≡ 0)
          × Advance combine w ms c fn cb kids outs sent s' 1 (suc have) (load + weight w m)
    unfolding next_reduction new_reducer identity_of
    contribute_advances mine m s (idle own fired have load redn closed) z h d up down out single =
        let ident = (next_reduction (identity_of s)).1 in
        let (box, s1, runs, len, wt, keeps, opens) =
          connect_all-opens kids [] (record s { identity = some ident }) d
            (λ u _. closed (port_to c u)) in
        let filled =
          feed-waiting combine (holding combine w ms c fn cb (length kids) []) box refl
            (omega (arith, len, have)) in
        let (sent, s', accepts, step) =
          accept_advances combine w ms c fn cb adds kids outs box (own_value m) s1
            (omega (arith, len, have)) opens in
        (
          sent,
          s',
          local_contribution-runs mine m ident s s1 box (sent, s') (rw redn refl) up down out single
              runs filled accepts,
          fired,
          Advance-equal (omega (arith, len, have)) (omega (arith, wt, load)) step,
        )
    contribute_advances mine m s (active devs own fired have few load node opened) z h d up down out
          single =
        absurd (omega (arith, own, z))
    contribute_advances mine m s (completed own fired have load) z h d up down out single =
        absurd (omega (arith, own, z))
