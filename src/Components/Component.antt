-- ===== src/Components/Component.antt =====
-- include/hypercomm/components/base.hpp and component.hpp: the life of a component and the way its
-- input values are staged. The action is a parameter: it sees the component's own state, may set
-- whether the component persists, and yields its outputs or suspends a component by exception.
-- A call back into the same component while it delivers is not modelled.
pub mod Accept
pub mod Activate
use hypercomm.Base.{
  ℕ, zero, suc, ◌≡◌, Bool, true, false, not, ◌&&◌, ◌||◌, List, [], ◌∷◌, ◌++◌, Option, none, some,
  is_some, if◌then◌else◌, nat_beq, ltb, ◌%◌, length, get_elem?, set, erase_idx, replicate, reverse,
}
use hypercomm.Components.{Status, completion, invalidation, Context}
use hypercomm.Components.Inbox.{InSet, Incoming, is_ready, find_ready, find_gap, empty_buffers}
use hypercomm.Components.Outbox.{Outbox, unspool, invalidate_all, try_flush, connect_to, empty}

-- How a call ends: by return, by the exception `suspension_`, or by a failed assertion.
pub data Exit : Type 0 where
  returns : Exit
  suspends : ℕ → Exit
  aborts : Exit

pub data Outcome (V : Type 0) : Type 0 where
  outputs : List V → Outcome V
  suspension : ℕ → Outcome V

-- `listeners` holds the newest first, as `emplace_front` leaves them.
pub record Com (S D V L : Type 0) : Type 0 where
  pub id : ℕ
  pub n_inputs : ℕ
  pub active : Bool
  pub activated : Bool
  pub permissive : Bool
  pub persistent : Bool
  pub listeners : List L
  pub incoming : Incoming V
  pub outgoing : Outbox D V
  pub state : S

pub record Acted (S V : Type 0) : Type 0 where
  pub state : S
  pub persistent : Bool
  pub outcome : Outcome V

-- The virtual `action`, and the call of a listener.
pub record Behaviour (E S V L : Type 0) : Type 0 where
  pub action : S → Bool → InSet V → Acted S V
  pub notify : L → Status → E → E

-- What is left of the component and the environment, and how the call ended.
pub record Run (E S D V L : Type 0) : Type 0 where
  pub self : Com S D V L
  pub env : E
  pub exit : Exit

module _ {S D V L : Type 0} where
  -- `add_listener`.
  pub add_listener : Com S D V L → L → Com S D V L
  add_listener c l = record c { listeners = l ∷ c.listeners }

  -- `collectible`.
  unfoldable pub collectible : Com S D V L → Bool
  collectible c = c.activated && not c.active && empty c.outgoing

module _ {E S D V L : Type 0} where
  abbrev pub done : Com S D V L → E → Run E S D V L
  done c env = record { self = c; env = env; exit = returns }

  module _ (ctx : Context E D V) (beh : Behaviour E S V L) where
    -- `notify_listeners`: from the back, so the oldest first; each is dropped once it was called.
    unfoldable pub notify_from : List L → Status → E → E
    notify_from [] signal env = env
    notify_from (l ∷ ls) signal env = notify_from ls signal (beh.notify l signal env)

    unfoldable pub notify_listeners : Com S D V L → Status → E → Com S D V L × E
    notify_listeners c signal env =
        (record c { listeners = [] }, notify_from (reverse c.listeners) signal env)

    -- `send_invalidations_`, for an invalidation only.
    unfoldable pub send_invalidations : Com S D V L → Status → E → Com S D V L × E
    send_invalidations c completion env = (c, env)
    send_invalidations c invalidation env =
        let (out, env') = invalidate_all ctx c.outgoing env in (record c { outgoing = out }, env')

    -- `deactivate`.
    unfoldable pub deactivate : Com S D V L → Status → E → Com S D V L × E
    deactivate c signal env =
        let (rest, env1) = empty_buffers ctx c.incoming env in
        let (c2, env2) =
          send_invalidations (record c { active = false; incoming = rest }) signal env1 in
        notify_listeners c2 signal env2

    -- The part of `stage_action` after the action: `cleanup` edits the sets.
    unfoldable pub conclude :
        Com S D V L → (Incoming V → Incoming V) → Outcome V → E → Run E S D V L
    conclude c cleanup (outputs vs) env =
        let (out, env1) = unspool ctx c.outgoing vs env in
        let c1 : Com S D V L = record c { incoming = cleanup c.incoming; outgoing = out } in
        if c1.persistent
        then done c1 env1
        else let (c2, env2) = deactivate c1 completion env1 in done c2 env2
    conclude c cleanup (suspension who) env =
        if nat_beq c.id who
        then done (record c { incoming = cleanup c.incoming }) env
        else record { self = c; env = env; exit = suspends who }

    -- `stage_action`: whether the set was consumed, and the run.
    unfoldable pub stage_action :
        Com S D V L → InSet V → (Incoming V → Incoming V) → E → Bool × Run E S D V L
    stage_action c s cleanup env =
        if c.active
        then (
          true,
          let r = beh.action c.state c.persistent s in
              conclude (record c { state = r.state; persistent = r.persistent }) cleanup r.outcome
                env,
        )
        else (false, done c env)

    -- The loop of `activate`; each round consumes a set, so there are at most as many as sets.
    unfoldable pub activate_loop : ℕ → Com S D V L → E → Run E S D V L
    activate_loop zero c env = done c env
    activate_loop (suc fuel) c env =
        if not c.active then done c env else elim (find_ready c.incoming) [
          | none ↦ done c env
          | some k ↦ elim (get_elem? c.incoming k) [
            | none ↦ done c env
            | some s ↦
                let r = (stage_action c s (λ ss. erase_idx ss k) env).1 in
                elim r.exit [
                  | returns ↦ activate_loop fuel r.self r.env
                  | suspends who ↦ r
                  | aborts ↦ r
                ]
          ]
        ]

    -- `activate`.
    unfoldable pub activate : Com S D V L → E → Run E S D V L
    activate c env =
        if c.active
        then record { self = c; env = env; exit = aborts }
        else activate_loop (suc (length c.incoming)) (record c { active = true; activated = true })
            env

    -- `default_acceptor_::direct_stage`, for a component with one input.
    unfoldable pub direct_stage : Com S D V L → Option V → E → Run E S D V L
    direct_stage c v env =
        if not (is_some v)
        then record { self = c; env = env; exit = aborts }
        else let (consumed, r) = stage_action c (v ∷ []) (λ ss. ss) env in
          if consumed then r else done (record c { incoming = (v ∷ []) ∷ c.incoming }) env

    -- `accept_` for more than one input, where a set lacks input `i`.
    unfoldable pub fill_gap : Com S D V L → ℕ → Option V → ℕ → E → Run E S D V L
    fill_gap c i v k env = elim (get_elem? c.incoming k) [
      | none ↦ done c env
      | some s ↦
          let full = set s i v in
          let c1 : Com S D V L = record c { incoming = set c.incoming k full } in
          if is_ready full then (stage_action c1 full (λ ss. erase_idx ss k) env).1 else done c1 env
    ]

    -- `default_acceptor_::accept_`.
    unfoldable pub accept : Com S D V L → ℕ → Option V → E → Run E S D V L
    accept c i v env =
        if not (is_some v || c.permissive)
        then (let (c', env') = deactivate c invalidation env in done c' env')
        else if nat_beq c.n_inputs 1
        then direct_stage c v env
        else elim (find_gap i c.incoming) [
          | none ↦
              done (record c { incoming = set (replicate c.n_inputs none) i v ∷ c.incoming }) env
          | some k ↦ fill_gap c i v k env
        ]

    -- `base_::accept`: the acceptor of the port, modulo the number of inputs.
    unfoldable pub accept_port : Com S D V L → ℕ → Option V → E → Run E S D V L
    accept_port c port v env =
        if ltb port c.n_inputs
        then accept c (port % c.n_inputs) v env
        else record { self = c; env = env; exit = aborts }

    -- `output_to`, on one output.
    unfoldable pub output_to : Com S D V L → ℕ → D → E → Run E S D V L
    output_to c o d env = elim (get_elem? c.outgoing o) [
      | none ↦ record { self = c; env = env; exit = aborts }
      | some out ↦
          let (prev, out1, env1) = connect_to ctx out d env in
          if c.active && prev
          then record {
            self = record c { outgoing = set c.outgoing o out1 };
            env = env1;
            exit = aborts;
          }
          else if c.active
          then (let (out2, env2) = try_flush ctx out1 env1 in
              done (record c { outgoing = set c.outgoing o out2 }) env2)
          else done (record c { outgoing = set c.outgoing o out1 }) env1
    ]
