-- ===== src/Components/Outbox.antt =====
-- include/hypercomm/components/outbox.hpp and connector.hpp: for each output of a component, the
-- connection and the values that could not be delivered.
pub mod Flush
use hypercomm.Base.{
  ℕ, zero, suc, ◌≡◌, Bool, true, false, ◌&&◌, List, [], ◌∷◌, ◌++◌, Option, none, some, is_some,
  null, if◌then◌else◌,
}
use hypercomm.Components.{Context}

pub record Output (D V : Type 0) : Type 0 where
  pub connector : Option D
  pub buffer : List V

abbrev pub Outbox : Type 0 → Type 0 → Type 0
Outbox D V = List (Output D V)

module _ {E D V : Type 0} (ctx : Context E D V) where
  -- `connector_::relay`: an unconnected connector is never relayed to.
  unfoldable pub relay : Option D → Option V → E → Bool × E
  relay none v env = (false, env)
  relay (some d) v env = ctx.passthru d v env

  -- `connector_::implode`: relays a null value and disconnects.
  unfoldable pub implode : Output D V → E → Output D V × E
  unfolding relay
  implode o env = (record o { connector = none }, (relay o.connector none env).1)

  -- `outbox_::deliver_`; an output set has a value for each output.
  unfoldable pub deliver_value : Output D V → V → E → Output D V × E
  unfolding relay
  deliver_value o v env =
      let (done, env') = relay o.connector (some v) env in
      (if done then o else record o { buffer = o.buffer ++ v ∷ [] }, env')

  -- `outbox_::unspool`: the outputs in order.
  unfoldable pub unspool : Outbox D V → List V → E → Outbox D V × E
  unfolding deliver_value
  unspool [] vs env = ([], env)
  unspool (o ∷ os) [] env = (o ∷ os, env)
  unspool (o ∷ os) (v ∷ vs) env =
      let (o', env1) = deliver_value o v env in
      let (os', env2) = unspool os vs env1 in (o' ∷ os', env2)

  flush_buffer : Option D → List V → E → List V × E
  unfolding relay
  flush_buffer con [] env = ([], env)
  flush_buffer con (v ∷ vs) env =
      let (done, env') = relay con (some v) env in
      elim done [ true ↦ flush_buffer con vs env' | false ↦ (v ∷ vs, env') ]

  -- `outbox_::try_flush`: as much of the buffer as can be delivered, in order.
  unfoldable pub try_flush : Output D V → E → Output D V × E
  unfolding flush_buffer
  try_flush o env =
      let (rest, env') = flush_buffer o.connector o.buffer env in (record o { buffer = rest }, env')

  -- `outbox_::invalidate`.
  unfoldable pub invalidate : Output D V → E → Output D V × E
  unfolding implode
  invalidate o env = if is_some o.connector then implode o env else (o, env)

  -- `outbox_::connect_to`: whether there was a connection before, which is imploded.
  unfoldable pub connect_to : Output D V → D → E → Bool × Output D V × E
  unfolding invalidate
  connect_to o d env =
      let (o', env') = invalidate o env in
      (is_some o.connector, record o' { connector = some d }, env')

  unfoldable pub invalidate_all : Outbox D V → E → Outbox D V × E
  unfolding invalidate
  invalidate_all [] env = ([], env)
  invalidate_all (o ∷ os) env =
      let (o', env1) = invalidate o env in
      let (os', env2) = invalidate_all os env1 in (o' ∷ os', env2)

module _ {D V : Type 0} where
  -- `outbox_::empty`.
  unfoldable pub empty : Outbox D V → Bool
  empty [] = true
  empty (o ∷ os) = null o.buffer && empty os
