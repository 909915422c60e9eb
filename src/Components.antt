-- ===== src/Components.antt =====
-- include/hypercomm/components/: components, their inboxes and outboxes.
-- Values are of an abstract type; a null value is `none`. What a component does to the locality
-- around it is an effect on an abstract environment, through the interface `Context`.
pub mod Inbox
pub mod Outbox
pub mod Component
mod Tests
use hypercomm.Base.{ℕ, Bool, Option}

-- `status_` of components/base.hpp.
pub data Status : Type 0 where
  completion invalidation : Status

-- `passthru_context_` and `try_return` (core/generic_locality.hpp), which a component calls.
pub record Context (E D V : Type 0) : Type 0 where
  pub passthru : D → Option V → E → Bool × E
  pub try_return : V → E → E
