-- ===== src/Components/Outbox/Flush.antt =====
-- `outbox_::try_flush` of include/hypercomm/components/outbox.hpp against the deliveries that it
-- makes.
use hypercomm.Base.{◌≡◌, refl, ap, Bool, true, false, List, [], ◌∷◌, ◌++◌, some}
use hypercomm.Components.{Context}
use hypercomm.Components.Outbox.{Output, relay, flush_buffer, try_flush}

module _ {E D V : Type 0} (ctx : Context E D V) where
  -- The values are relayed to a destination one by one, and it takes each.
  pub data Sent (d : D) : E → List V → E → Type 0 where
    nothing : {env : E} → Sent d env [] env
    then_sent :
        {env : E} {env1 : E} {env2 : E} {v : V} {vs : List V}
        → ctx.passthru d (some v) env ≡ (true, env1)
        → Sent d env1 vs env2
        → Sent d env (v ∷ vs) env2

  -- What is left after the values `sent`: nothing, or a value that the destination refused.
  abbrev pub Stops : D → List V → E → E → Type 0
  Stops d [] env1 env' = env1 ≡ env'
  Stops d (v ∷ rest) env1 env' = ctx.passthru d (some v) env1 ≡ (false, env')

  -- The rest of a buffer and the environment, after some were sent.
  abbrev pub Flushed : D → List V → E → List V × E → Type 0
  Flushed d vs env out =
      (sent : List V) × (env1 : E) × (vs ≡ sent ++ out.0)
      × Sent d env sent env1
      × Stops d out.0 env1 out.1

  flush_step :
      (d : D) (v : V) (vs : List V) (env : E) (r : Bool × E) (flush : E → List V × E)
      → ctx.passthru d (some v) env ≡ r
      → ((e : E) → Flushed d vs e (flush e))
      → Flushed d (v ∷ vs) env (elim r.0 [ true ↦ flush r.1 | false ↦ (v ∷ vs, r.1) ])
  flush_step d v vs env (true, env1) flush h ih =
      let (sent, env2, whole, trace, stop) = ih env1 in
      (v ∷ sent, env2, ap (λ xs. v ∷ xs) whole, then_sent h trace, stop)
  flush_step d v vs env (false, env1) flush h ih = ([], env, refl, nothing, h)

  flush_buffer-Sent :
      (d : D) (vs : List V) (env : E) → Flushed d vs env (flush_buffer ctx (some d) vs env)
  unfolding flush_buffer relay
  flush_buffer-Sent d [] env = ([], env, refl, nothing, refl)
  flush_buffer-Sent d (v ∷ vs) env =
      flush_step d v vs env (ctx.passthru d (some v) env) (λ e. flush_buffer ctx (some d) vs e) refl
        (λ e. flush_buffer-Sent d vs e)

  -- Flushing a connected output relays the buffer's values one by one from the oldest on. Those
  -- the destination took are gone, all others stay in the buffer in their order, and it stops
  -- only at the end or at a value that the destination refused.
  pub try_flush-Sent :
      (o : Output D V) (d : D) (env : E)
      → o.connector ≡ some d
      → Flushed d o.buffer env ((try_flush ctx o env).0.buffer, (try_flush ctx o env).1)
  unfolding try_flush
  try_flush-Sent o d env h = rw h (flush_buffer-Sent d o.buffer env)
