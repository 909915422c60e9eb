-- ===== src/Mailbox.antt =====
-- include/hypercomm/components/mailbox.hpp: a component that matches values with requests.
-- The predicates, and what the locality does with a value, are parameters. A mailbox is active
-- from its activation on, so `accept(0, dev)` runs `action` again. The counts of `QdCreate` and
-- `QdProcess` are kept, as the runtime's quiescence detection uses them.
pub mod Consistent
mod Tests
use hypercomm.Base.{
  ℕ, zero, suc, ◌+◌, Bool, true, false, List, [], ◌∷◌, ◌++◌, Option, none, some, if◌then◌else◌,
  length, get_elem?, erase_idx,
}

-- A destination of a request: a callback, or the port of a component.
pub data Target (K : Type 0) : Type 0 where
  callback : K → Target K
  component : ℕ → ℕ → Target K

pub record Request (Q K : Type 0) : Type 0 where
  pub pred : Option Q
  pub dst : Target K

-- `requests` has the newest first, `buffer` the oldest first.
pub record Mailbox (Q K V : Type 0) : Type 0 where
  pub requests : List (Request Q K)
  pub buffer : List V
  pub created : ℕ
  pub processed : ℕ

pub record Surroundings (E Q K V : Type 0) : Type 0 where
  pub test : Q → V → Bool
  pub send : K → V → E → E
  pub passthru : Target K → V → E → Bool × E

module _ {E Q K V : Type 0} (sur : Surroundings E Q K V) where
  abbrev pub accepts : Option Q → V → Bool
  accepts none v = true
  accepts (some q) v = sur.test q v

  -- `request::matches`.
  abbrev pub matches : Request Q K → V → Bool
  matches r v = accepts r.pred v

  -- The first value from the front; `none` for the end.
  unfoldable pub find_in_buffer : Option Q → List V → Option ℕ
  find_in_buffer q [] = none
  find_in_buffer q (v ∷ vs) =
      if accepts q v
      then some 0
      else elim (find_in_buffer q vs) [ none ↦ none | some k ↦ some (suc k) ]

  -- The first request from the back.
  unfoldable pub find_matching : List (Request Q K) → V → Option ℕ
  find_matching [] v = none
  find_matching (r ∷ rs) v = elim (find_matching rs v) [
    | some k ↦ some (suc k)
    | none ↦ if matches r v then some 0 else none
  ]

  abbrev pub post : Mailbox Q K V → Option Q → Target K → Mailbox Q K V
  post mb pred dst = record mb { requests = record { pred = pred; dst = dst } ∷ mb.requests }

  abbrev pub take_buffered : Mailbox Q K V → ℕ → Mailbox Q K V
  take_buffered mb k = record mb { buffer = erase_idx mb.buffer k; processed = mb.processed + 1 }

  unfoldable pub put_request : Mailbox Q K V → Option Q → K → E → Mailbox Q K V × E
  put_request mb pred cb env = elim (find_in_buffer pred mb.buffer) [
    | none ↦ (post mb pred (callback cb), env)
    | some k ↦ elim (get_elem? mb.buffer k) [
      | none ↦ (mb, env)
      | some v ↦ (take_buffered mb k, sur.send cb v env)
    ]
  ]

  -- `none` is the failed assertion on the delivery.
  unfoldable pub put_request_to : Mailbox Q K V → Option Q → ℕ → ℕ → E → Option (Mailbox Q K V × E)
  put_request_to mb pred id port env = elim (find_in_buffer pred mb.buffer) [
    | none ↦ some (post mb pred (component id port), env)
    | some k ↦ elim (get_elem? mb.buffer k) [
      | none ↦ some (mb, env)
      | some v ↦
          let (status, env') = sur.passthru (component id port) v env in
          if status then some (take_buffered mb k, env') else none
    ]
  ]

  -- `action`; each redelivery has lost a request.
  unfoldable pub action_loop : ℕ → Mailbox Q K V → V → E → Mailbox Q K V × E
  action_loop zero mb v env = (mb, env)
  action_loop (suc fuel) mb v env = elim (find_matching mb.requests v) [
    | none ↦ (record mb { buffer = mb.buffer ++ v ∷ []; created = mb.created + 1 }, env)
    | some k ↦ elim (get_elem? mb.requests k) [
      | none ↦ (mb, env)
      | some r ↦
          let mb' : Mailbox Q K V = record mb { requests = erase_idx mb.requests k } in
          let (status, env') = sur.passthru r.dst v env in
          elim status [ true ↦ (mb', env') | false ↦ action_loop fuel mb' v env' ]
    ]
  ]

  unfoldable pub action : Mailbox Q K V → V → E → Mailbox Q K V × E
  action mb v env = action_loop (suc (length mb.requests)) mb v env
