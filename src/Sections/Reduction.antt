-- ===== src/Sections/Reduction.antt =====
-- A reduction over a section: `vil::local_contribution` of include/hypercomm/core/locality.hpp, with
-- the ports of include/hypercomm/reductions/reduction_port.hpp and the reducers of `Reductions`.
-- Each chare of the section is a `Site`; the network holds the contributions that reducers forward,
-- and hands them over in any order. There is one section, so that a port is told by its count and
-- its index, and a component of a site by the count of its reducer.
pub mod Weights
pub mod Node
pub mod Contribute
pub mod Place
pub mod Flow
pub mod Tally
pub mod Advance
pub mod Members
pub mod Steps
pub mod Exact
mod Tests
use hypercomm.Base.{
  ◌>>=◌, ℕ, suc, Bool, true, false, not, ◌&&◌, List, [], ◌∷◌, ◌++◌, Option, none, some, map, length,
  null, get_elem?, erase_idx, Eq, ◌==◌, nat_beq, if◌then◌else◌, contains, ◌≡◌,
}
use hypercomm.Sections.{Identity, identity, next_reduction, upstream, downstream, assert, is_member}
use hypercomm.Reductions.{
  Contribution, Reducer, suspended, reduced, fault, new_reducer, action, feed,
}

-- `reduction_port`, for one section.
pub record ReductionPort (I : Type 0) : Type 0 where
  pub count : ℕ
  pub index : I

-- Where a reducer's output goes: to a port of another member, or to a callback.
pub data Route (I K : Type 0) : Type 0 where
  forward_to : I → ReductionPort I → Route I K
  to_callback : K → Route I K

-- A reducer among the components of a site.
pub record ReducerNode (I M C K : Type 0) : Type 0 where
  pub reducer : Reducer (List I) M C K
  pub outputs : List (Route I K)

-- What a chare keeps for the section: its identity, the open ports, the reducers by their counts,
-- and the values that wait for a port. A null value is an invalidation.
pub record Site (I M C K : Type 0) : Type 0 where
  pub identity : Option Identity
  pub is_open : ReductionPort I → Bool
  pub components : ℕ → Option (ReducerNode I M C K)
  pub port_queue : ReductionPort I → List (Option (Contribution M C K))

-- A value on its way to a port of a member.
pub record Packet (I M C K : Type 0) : Type 0 where
  pub target : I
  pub port : ReductionPort I
  pub value : Option (Contribution M C K)

-- What a step of a site sends: packets, and calls of callbacks.
pub record SiteSent (I M C K : Type 0) : Type 0 where
  pub packets : List (Packet I M C K)
  pub calls : List (K × Contribution M C K)

pub record Net (I M C K : Type 0) : Type 0 where
  pub sites : I → Site I M C K
  pub pending : List (Packet I M C K)
  pub calls : List (K × Contribution M C K)

module _ {I M C K : Type 0} where
  -- `identity_for`: a missing identity is imprinted, with seed 0.
  abbrev pub identity_of : Site I M C K → Identity
  unfolding identity
  identity_of s = elim s.identity [ none ↦ identity 0 | some ident ↦ ident ]

  abbrev pub nothing_sent : SiteSent I M C K
  nothing_sent = record { packets = []; calls = [] }

  -- The callbacks of a reducer's output, called with its result.
  abbrev pub send_result : Contribution M C K → List (Route I K) → SiteSent I M C K
  send_result result [] = nothing_sent
  send_result result (forward_to down port ∷ outs) =
      let rest = send_result result outs in
      record rest {
        packets = record { target = down; port = port; value = some result } ∷ rest.packets;
      }
  send_result result (to_callback cb ∷ outs) =
      let rest = send_result result outs in record rest { calls = (cb, result) ∷ rest.calls }

  abbrev pub set_node : ℕ → Option (ReducerNode I M C K) → Site I M C K → Site I M C K
  set_node id rdcr s = record s { components = λ j. if nat_beq id j then rdcr else s.components j }

  -- A reducer that has completed is collected, and its ports are invalidated.
  abbrev pub complete_reducer : ℕ → Site I M C K → Site I M C K
  complete_reducer id s = record (set_node id none s) {
    is_open = λ p. if nat_beq id p.count then false else s.is_open p;
  }

module _ {I : Type 0} ⦃e : Eq I⦄ where
  -- `reduction_port::equals`.
  abbrev pub same_port : ReductionPort I → ReductionPort I → Bool
  same_port p q = nat_beq p.count q.count && p.index == q.index

module _ {I M C K : Type 0} ⦃e : Eq I⦄ where
  abbrev pub set_port_queue :
      ReductionPort I → List (Option (Contribution M C K)) → Site I M C K → Site I M C K
  set_port_queue port q s = record s {
    port_queue = λ p. if same_port port p then q else s.port_queue p;
  }

  -- `connect`: the port is opened, and what waits for it goes to the inbox of the reducer, which is
  -- not active yet. A port that is open already aborts.
  unfoldable pub connect_port :
      ℕ
      → I
      → List (Option (Contribution M C K)) × Site I M C K
      → Option (List (Option (Contribution M C K)) × Site I M C K)
  connect_port count up (inbox, s) =
      let port : ReductionPort I = record { count = count; index = up } in
      assert (not (s.is_open port)) (
        some (
          inbox ++ s.port_queue port,
          record (set_port_queue port [] s) {
            is_open = λ p. if same_port port p then true else s.is_open p;
          },
        ))

  unfoldable pub connect_all :
      ℕ
      → List I
      → List (Option (Contribution M C K)) × Site I M C K
      → Option (List (Option (Contribution M C K)) × Site I M C K)
  unfolding connect_port
  connect_all count [] st = some st
  connect_all count (up ∷ ups) st = connect_port count up st >>= connect_all count ups

  -- A step of a chare in the network.
  abbrev pub after_step : Net I M C K → I → SiteSent I M C K × Site I M C K → Net I M C K
  after_step net i (sent, s) = record {
    sites = λ j. if i == j then s else net.sites j;
    pending = net.pending ++ sent.packets;
    calls = net.calls ++ sent.calls;
  }

module _ {I K : Type 0} where
  -- The root's reducer calls the callback, the others' are forwarded downstream.
  abbrev pub outputs_of : List I → ReductionPort I → K → List (Route I K)
  outputs_of dstream port cb =
      if null dstream then to_callback cb ∷ [] else map (λ down. forward_to down port) dstream

module _ {I M C K : Type 0} ⦃e : Eq I⦄ (combine : C → List M → Option M) where
  -- A value for a reducer that is active.
  unfoldable pub accept_contribution :
      ℕ
      → ReducerNode I M C K
      → Option (Contribution M C K)
      → Site I M C K
      → Option (SiteSent I M C K × Site I M C K)
  accept_contribution id rdcr value s = elim (action combine rdcr.reducer value) [
    | suspended r ↦ some (nothing_sent, set_node id (some (record rdcr { reducer = r })) s)
    | reduced r result ↦ some (send_result result rdcr.outputs, complete_reducer id s)
    | fault ↦ none
  ]

  -- `receive` at a port: a value waits until its port is open.
  unfoldable pub receive_contribution :
      ReductionPort I
      → Option (Contribution M C K)
      → Site I M C K
      → Option (SiteSent I M C K × Site I M C K)
  receive_contribution port value s =
      if s.is_open port
      then (s.components port.count >>= λ rdcr. accept_contribution port.count rdcr value s)
      else some (nothing_sent, set_port_queue port (s.port_queue port ++ value ∷ []) s)

  -- `local_contribution`. The constructor of a reducer asserts that it has one output; a reducer
  -- that completes as it is activated is gone when the contribution is passed to it, and the
  -- assertion of that call fails.
  unfoldable pub local_contribution :
      List I → I → Option M → C → K → Site I M C K → Option (SiteSent I M C K × Site I M C K)
  local_contribution members mine value fn cb s =
      let (count, ident) = next_reduction (identity_of s) in
      upstream members mine >>= λ ustream. downstream members mine >>= λ dstream.
      let outs = outputs_of dstream (record { count = count; index = mine }) cb in
      assert (nat_beq (length outs) 1) (
        connect_all count ustream ([], record s { identity = some ident }) >>= λ (inbox, s1).
        feed combine (new_reducer members count (some fn) (suc (length ustream))) inbox >>= λ r.
        accept_contribution count (record { reducer = r; outputs = outs })
          (some (record { msg = value; combiner = some fn; callback = some cb })) s1)

  -- A member makes its contribution.
  unfoldable pub contribute :
      List I → (I → Option M) → C → K → I → Net I M C K → Option (Net I M C K)
  contribute members values fn cb i net =
      local_contribution members i (values i) fn cb (net.sites i) >>= λ out.
      some (after_step net i out)

  -- The network delivers the pending packet at a position.
  unfoldable pub deliver_packet : ℕ → Net I M C K → Option (Net I M C K)
  deliver_packet p net = get_elem? net.pending p >>= λ t.
      receive_contribution t.port t.value (net.sites t.target) >>= λ out.
      some (after_step (record net { pending = erase_idx net.pending p }) t.target out)

  -- Each member contributes once, at any time, and packets are delivered in any order. The list
  -- holds the members that have contributed.
  pub data Reach (members : List I) (values : I → Option M) (fn : C) (cb : K) (start : Net I M C K)
      : List I → Net I M C K → Type 0 where
    here : Reach members values fn cb start [] start
    contributes :
        {done : List I} {net net' : Net I M C K}
        → Reach members values fn cb start done net
        → (i : I) → is_member members i ≡ true
        → contains i done ≡ false
        → contribute members values fn cb i net ≡ some net'
        → Reach members values fn cb start (i ∷ done) net'
    delivers :
        {done : List I} {net net' : Net I M C K}
        → Reach members values fn cb start done net
        → (p : ℕ) → deliver_packet p net ≡ some net'
        → Reach members values fn cb start done net'
