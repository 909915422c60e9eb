-- ===== src/Sections/Reduction/Advance.antt =====
-- A step of a member keeps the invariant of a reduction (include/hypercomm/core/locality.hpp).
use hypercomm.Base.{
  ℕ, suc, ◌+◌, ◌*◌, ◌/◌, ◌<◌, ◌≡◌, refl, ap, sym, subst, false, List, [], ◌∷◌, ◌++◌, Option, some,
  arith, length, Eq, ◌==◌, nat_beq, inl, inr, All, All-append, Distinct, append-nil, index_of,
  get_elem?, index_of-get_elem?, lt-length_of_get_elem?,
}
use hypercomm.Reductions.{Contribution}
use hypercomm.Sections.Tree.{children}
use hypercomm.Sections.Broadcast.Flow.{one, serve, total}
use hypercomm.Sections.Reduction.{
  forward_to, to_callback, Site, SiteSent, nothing_sent, Packet, Net, send_result, after_step,
}
use hypercomm.Sections.Reduction.Weights.{weight, weigh_one, port_to, sum_of-append}
use hypercomm.Sections.Reduction.Flow.{
  IsFlow, IsOnce, root-IsFlow, fire-IsFlow, serve-IsOnce, put, total-put,
}
use hypercomm.Sections.Reduction.Node.{Advance}
use hypercomm.Sections.Reduction.Place.{child-of_parent, route, at_root, to_parent, find-Way}
use hypercomm.Sections.Reduction.Tally.{
  to_place, heading, IsPacket, StageOf, in_packets, in_calls, IsCalled, Inv, Stage-equal,
  stages_after,
}

module _ {I M C K : Type 0} ⦃e : Eq I⦄ (combine : C → List M → Option M) (w : M → ℕ) (ms : List I)
    (c : ℕ) (fn : C) (cb : K) (values : I → Option M) (distinct : Distinct ms) where
  module _ (i : I) (lt : index_of i ms < length ms) (net : Net I M C K)
      (own have fired load : ℕ → ℕ) (given : ℕ) (s : Site I M C K)
      (stages : (j : I)
        → index_of j ms < length ms
        → i == j ≡ false
        → StageOf combine w ms c fn cb values distinct j
            (net.sites j)
            (own (index_of j ms))
            (have (index_of j ms))
            (fired (index_of j ms))
            (load (index_of j ms))) where
    module _
        (fl : IsFlow (length ms) own (serve (index_of i ms) have) fired (heading ms net.pending))
        (once : IsOnce (length ms) fired) (packets : All (IsPacket ms c) net.pending)
        (called : IsCalled cb net.calls (fired 0)) (new : ℕ)
        (weighed : total (length ms) load + new + in_packets w net.pending + in_calls w net.calls
          ≡ given) where
      -- The member keeps its values.
      waits-Inv :
          StageOf combine w ms c fn cb values distinct i s
            (own (index_of i ms))
            (suc (have (index_of i ms)))
            (fired (index_of i ms))
            (load (index_of i ms) + new)
          → Inv combine w ms c fn cb values distinct
              (after_step net i (nothing_sent, s))
              own
              (serve (index_of i ms) have)
              fired
              (put (index_of i ms) (load (index_of i ms) + new) load)
              given
      waits-Inv here = record {
        flow = λ k h. omega (arith, fl k h, sum_of-append (to_place ms k) net.pending []);
        once = once;
        stages =
            stages_after combine w ms c fn cb values distinct i lt net own have fired load given s
              stages nothing_sent fired (load (index_of i ms) + new) (λ k h. refl) here;
        packets = All-append (IsPacket ms c) net.pending [] packets tt;
        called = rw (append-nil net.calls) called;
        weighed = omega (
          arith,
          weighed,
          total-put (length ms) (index_of i ms) (load (index_of i ms) + new) load lt,
          sum_of-append (λ (t : Packet I M C K). weigh_one w t.value) net.pending [],
          ap (in_calls w) (append-nil net.calls),
        );
      }

      fired_other :
          (k : ℕ) → nat_beq (index_of i ms) k ≡ false → serve (index_of i ms) fired k ≡ fired k
      fired_other k apart = ground (arith, apart)

      fired_here :
          fired (index_of i ms) ≡ 0
          → StageOf combine w ms c fn cb values distinct i s
              (own (index_of i ms))
              (suc (have (index_of i ms)))
              1
              0
          → StageOf combine w ms c fn cb values distinct i s
              (own (index_of i ms))
              (suc (have (index_of i ms)))
              (serve (index_of i ms) fired (index_of i ms))
              0
      fired_here unfired here =
          Stage-equal combine w ms c fn cb values distinct i refl refl (ground (arith, unfired))
            refl here

      completes-IsCalled :
          (r : Contribution M C K)
          → index_of i ms ≡ 0
          → fired (index_of i ms) ≡ 0
          → IsCalled cb (net.calls ++ (cb, r) ∷ []) (serve (index_of i ms) fired 0)
      completes-IsCalled r placed unfired = elim called [
        | inl (empty, _) ↦
            inr (r, rw empty refl, rw placed (omega (arith, ap fired placed, unfired)))
        | inr (_, _, done) ↦ absurd (omega (arith, ap fired placed, unfired, done))
      ]

      -- The root's reducer completes, and its result goes to the callback.
      root-Inv :
          (r : Contribution M C K)
          → index_of i ms ≡ 0
          → fired (index_of i ms) ≡ 0
          → weight w r.msg ≡ load (index_of i ms) + new
          → StageOf combine w ms c fn cb values distinct i s
              (own (index_of i ms))
              (suc (have (index_of i ms)))
              1
              0
          → Inv combine w ms c fn cb values distinct
              (after_step net i (send_result r (to_callback cb ∷ []), s))
              own
              (serve (index_of i ms) have)
              (serve (index_of i ms) fired)
              (put (index_of i ms) 0 load)
              given
      root-Inv r placed unfired heavy here = record {
        flow = λ k h. omega (
          arith,
          root-IsFlow (length ms) own (serve (index_of i ms) have) fired (heading ms net.pending) fl
              k h,
          ap (λ p. serve p fired (2 * k + 1)) placed,
          ap (λ p. serve p fired (2 * k + 2)) placed,
          sum_of-append (to_place ms k) net.pending [],
        );
        once = serve-IsOnce (length ms) (index_of i ms) fired once lt unfired;
        stages =
            stages_after combine w ms c fn cb values distinct i lt net own have fired load given s
              stages (send_result r (to_callback cb ∷ [])) (serve (index_of i ms) fired) 0
              fired_other (fired_here unfired here);
        packets = All-append (IsPacket ms c) net.pending [] packets tt;
        called = completes-IsCalled r placed unfired;
        weighed = omega (
          arith,
          weighed,
          heavy,
          total-put (length ms) (index_of i ms) 0 load lt,
          sum_of-append (λ (t : Packet I M C K). weigh_one w t.value) net.pending [],
          sum_of-append (λ (x : K × Contribution M C K). weight w x.1.msg) net.calls ((cb, r) ∷ []),
        );
      }

      -- Another reducer completes, and its result goes to the parent.
      parent-Inv :
          (r : Contribution M C K) (j : ℕ) (a : I)
          → index_of i ms ≡ suc j
          → get_elem? ms (j / 2) ≡ some a
          → fired (index_of i ms) ≡ 0
          → weight w r.msg ≡ load (index_of i ms) + new
          → StageOf combine w ms c fn cb values distinct i s
              (own (index_of i ms))
              (suc (have (index_of i ms)))
              1
              0
          → Inv combine w ms c fn cb values distinct
              (after_step net i (send_result r (forward_to a (port_to c i) ∷ []), s))
              own
              (serve (index_of i ms) have)
              (serve (index_of i ms) fired)
              (put (index_of i ms) 0 load)
              given
      parent-Inv r j a placed parent unfired heavy here =
          let above : index_of a ms ≡ j / 2 = index_of-get_elem? ms (j / 2) a distinct parent in
          let packet : Packet I M C K = record { target = a; port = port_to c i; value = some r } in
          record {
            flow = λ k h. omega (
              arith,
              fire-IsFlow (length ms) j own (serve (index_of i ms) have) fired
                  (heading ms net.pending) (heading ms (net.pending ++ packet ∷ [])) fl
                  (λ q hq. omega (
                    arith,
                    sum_of-append (to_place ms q) net.pending (packet ∷ []),
                    ap (λ p. one (nat_beq p q)) above,
                  ))
                  k h,
              ap (λ p. serve p fired (2 * k + 1)) placed,
              ap (λ p. serve p fired (2 * k + 2)) placed,
            );
            once = serve-IsOnce (length ms) (index_of i ms) fired once lt unfired;
            stages =
                stages_after combine w ms c fn cb values distinct i lt net own have fired load given
                  s stages (send_result r (forward_to a (port_to c i) ∷ []))
                  (serve (index_of i ms) fired) 0 fired_other (fired_here unfired here);
            packets = All-append (IsPacket ms c) net.pending (packet ∷ []) packets (
              (
                rw above (lt-length_of_get_elem? ms (j / 2) a parent),
                refl,
                child-of_parent ms distinct i a j placed lt parent,
              ),
              tt,
            );
            called =
                rw (append-nil net.calls)
                  (subst (λ f. IsCalled cb net.calls f) (ground (arith, placed)) called);
            weighed = omega (
              arith,
              weighed,
              heavy,
              total-put (length ms) (index_of i ms) 0 load lt,
              sum_of-append (λ (t : Packet I M C K). weigh_one w t.value) net.pending (packet ∷ []),
              ap (in_calls w) (append-nil net.calls),
            );
          }

      -- A step of a member keeps the invariant.
      pub Advance-Inv :
          (sent : SiteSent I M C K)
          → fired (index_of i ms) ≡ 0
          → Advance combine w ms c fn cb
              (children ms (index_of i ms))
              (route ms distinct c cb i)
              sent
              s
              (own (index_of i ms))
              (suc (have (index_of i ms)))
              (load (index_of i ms) + new)
          → (fired' load' : ℕ → ℕ) × Inv combine w ms c fn cb values distinct
              (after_step net i (sent, s))
              own
              (serve (index_of i ms) have)
              fired'
              load'
              given
      Advance-Inv sent unfired (inl (quiet, here)) = (
        fired,
        put (index_of i ms) (load (index_of i ms) + new) load,
        rw quiet (
            waits-Inv (
              Stage-equal combine w ms c fn cb values distinct i refl refl (sym unfired) refl
                here)),
      )
      Advance-Inv sent unfired (inr (r, result, heavy, here)) = (
        serve (index_of i ms) fired,
        put (index_of i ms) 0 load,
        rw result (elim (find-Way ms distinct c cb i lt) [
          | at_root placed out ↦ rw out (root-Inv r placed unfired heavy here)
          | to_parent j a placed parent out ↦
              rw out (parent-Inv r j a placed parent unfired heavy here)
        ]),
      )
