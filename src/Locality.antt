-- ===== src/Locality.antt =====
-- include/hypercomm/core/generic_locality.hpp and src/hypercomm/core/locality.cc: the ports,
-- components and waiting values of one chare.
-- Equal ports are one object, so that its flag `alive` is a map on ports. Virtual calls (components,
-- callbacks, handlers) may change the whole locality: they are functions on its state. A failed
-- assertion, or an abort, is `none`. `receive` and `passthru` call each other, once for each
-- endpoint that a value is sent on to, and run on fuel.
pub mod Ports
pub mod Lifecycle
mod Tests
use hypercomm.Base.{
  ℕ, zero, suc, ◌+◌, ◌%◌, ◌^◌, Bool, true, false, not, ◌&&◌, List, [], ◌∷◌, ◌++◌, Option, none,
  some, null, if◌then◌else◌, Eq, ◌==◌, nat_beq, nat_eq, Assoc, lookup, lookup_or, insert, erase,
  contains, index_of, erase_idx,
}

-- An endpoint is an entry port, through the demultiplexer, or another entry method.
pub data Endpoint (P : Type 0) : Type 0 where
  to_port : P → Endpoint P
  to_method : ℕ → Endpoint P

-- `deliverable`: a message or a value, and its endpoint.
pub record Dev (P X : Type 0) : Type 0 where
  pub is_message : Bool
  pub content : X
  pub ep : Endpoint P

-- `destination`, by its kinds.
pub data Destination (P K : Type 0) : Type 0 where
  endpoint : Endpoint P → Destination P K
  component : ℕ → ℕ → Destination P K
  callback : K → Destination P K

-- `generic_locality_`, with the counts of `QdCreate` and `QdProcess`, and the values that were sent
-- back into the network.
pub record Locality (P K C X : Type 0) : Type 0 where
  pub entry_ports : Assoc P (Destination P K)
  pub alive : P → Bool
  pub components : Assoc ℕ C
  pub callstack : List ℕ
  pub port_queue : Assoc P (List (Dev P X))
  pub invalidations : List ℕ
  pub future_authority : ℕ
  pub component_authority : ℕ
  pub created : ℕ
  pub processed : ℕ
  pub network : List (Dev P X)

-- The virtual calls.
pub record Calls (P K C X : Type 0) : Type 0 where
  pub keep_alive : P → Bool
  pub accept : ℕ → ℕ → Dev P X → Locality P K C X → Bool × Locality P K C X
  pub send : K → Dev P X → Locality P K C X → Locality P K C X
  pub invoke : ℕ → Dev P X → Locality P K C X → Locality P K C X
  pub is_active : C → Bool
  pub collectible : C → Bool
  pub activate : ℕ → Locality P K C X → Locality P K C X
  pub deactivate : ℕ → Locality P K C X → Locality P K C X

module _ {P X : Type 0} where
  -- `update_endpoint`.
  abbrev pub update_endpoint : Dev P X → Endpoint P → Dev P X
  update_endpoint dev ep = record dev { ep = ep }

module _ {P K C X : Type 0} ⦃e : Eq P⦄ where
  -- `has_value`.
  unfoldable pub has_value : P → Locality P K C X → Bool
  has_value port l = elim (lookup port l.port_queue) [ none ↦ false | some q ↦ not (null q) ]

  -- `is_idle`.
  unfoldable pub is_idle : ℕ → Locality P K C X → Bool
  is_idle id l = not (contains id l.callstack)

  -- `this->port_queue[port].push_back(dev)`.
  unfoldable pub enqueue : P → Dev P X → Locality P K C X → Locality P K C X
  enqueue port dev l = record l {
    port_queue = insert port (lookup_or port [] l.port_queue ++ dev ∷ []) l.port_queue;
    created = l.created + 1;
  }

module _ {P K C X : Type 0} ⦃e : Eq P⦄ (calls : Calls P K C X) where
  -- `try_collect`.
  unfoldable pub try_collect : ℕ → Locality P K C X → Locality P K C X
  try_collect id l = elim (lookup id l.components) [
    | none ↦ l
    | some c ↦ if calls.collectible c then record l { components = erase id l.components } else l
  ]

  -- `passthru` to a port of a component.
  unfoldable pub passthru_component : ℕ → ℕ → Dev P X → Locality P K C X → Bool × Locality P K C X
  passthru_component id port dev l = elim (lookup id l.components) [
    | none ↦ (false, l)
    | some c ↦
        let (status, l1) = calls.accept id port dev (record l { callstack = id ∷ l.callstack }) in
        let l2 : Locality P K C X = record l1 { callstack = l.callstack } in
        (status, (if status then try_collect id l2 else l2))
  ]

  -- `passthru` to a destination, where `recv` is `receive`.
  unfoldable pub passthru_with :
      (Dev P X → Locality P K C X → Option (Locality P K C X))
      → Destination P K
      → Dev P X
      → Locality P K C X
      → Option (Bool × Locality P K C X)
  passthru_with recv (endpoint ep) dev l = elim (recv (update_endpoint dev ep) l) [
    | none ↦ none
    | some l' ↦ some (true, l')
  ]
  passthru_with recv (component id port) dev l = some (passthru_component id port dev l)
  passthru_with recv (callback cb) dev l = some (true, calls.send cb dev l)

  -- `CkAssertMsg(status, "local delivery failed!")`.
  abbrev pub assert_delivered : Option (Bool × Locality P K C X) → Option (Locality P K C X)
  assert_delivered none = none
  assert_delivered (some (true, l)) = some l
  assert_delivered (some (false, l)) = none

  -- `receive`.
  unfoldable pub receive : ℕ → Dev P X → Locality P K C X → Option (Locality P K C X)
  receive zero dev l = none
  receive (suc fuel) dev l = elim dev.ep [
    | to_port port ↦ elim (lookup port l.entry_ports) [
      | none ↦ some (enqueue port dev l)
      | some dst ↦ assert_delivered (passthru_with (receive fuel) dst dev l)
    ]
    | to_method idx ↦ some (calls.invoke idx dev l)
  ]

  -- `passthru`.
  unfoldable pub passthru :
      ℕ → Destination P K → Dev P X → Locality P K C X → Option (Bool × Locality P K C X)
  passthru fuel dst dev l = passthru_with (receive fuel) dst dev l

  -- The loop of `resync_port_queue`: the front value stays in the queue while it is delivered.
  unfoldable pub resync_loop :
      ℕ → ℕ → P → Destination P K → Locality P K C X → Option (Locality P K C X)
  resync_loop fuel zero port dst l = none
  resync_loop fuel (suc rounds) port dst l = elim (lookup_or port [] l.port_queue) [
    | [] ↦ some (record l { port_queue = erase port l.port_queue })
    | dev ∷ rest ↦
        if not (l.alive port) then some l else elim (assert_delivered (passthru fuel dst dev l)) [
          | none ↦ none
          | some l1 ↦ elim (lookup_or port [] l1.port_queue) [
            | [] ↦ none
            | _ ∷ rest1 ↦ resync_loop fuel rounds port dst (record l1 {
              port_queue = insert port rest1 l1.port_queue;
              processed = l1.processed + 1;
            })
          ]
        ]
  ]

  -- `resync_port_queue`; the rounds are bounded by fuel, as deliveries may add to the queue.
  unfoldable pub resync_port_queue :
      ℕ → ℕ → P → Destination P K → Locality P K C X → Option (Locality P K C X)
  resync_port_queue fuel rounds port dst l = elim (lookup port l.port_queue) [
    | none ↦ some l
    | some q ↦ resync_loop fuel rounds port dst l
  ]

  abbrev pub set_alive : P → Bool → Locality P K C X → Locality P K C X
  set_alive port b l = record l { alive = λ p. if port == p then b else l.alive p }

  -- `open`; a port that is open already aborts.
  unfoldable pub open_port :
      ℕ → ℕ → P → Destination P K → Locality P K C X → Option (Locality P K C X)
  open_port fuel rounds ours theirs l =
      let l1 : Locality P K C X = set_alive ours true l in
      elim (lookup ours l.entry_ports) [
        | some _ ↦ none
        | none ↦
            resync_port_queue fuel rounds ours theirs
              (record l1 { entry_ports = insert ours theirs l.entry_ports })
      ]

  -- `invalidate_port`.
  unfoldable pub invalidate_port : P → Locality P K C X → Locality P K C X
  invalidate_port port l =
      let alive = l.alive port && calls.keep_alive port in
      let l1 : Locality P K C X = set_alive port alive l in
      if alive then l1 else record l1 { entry_ports = erase port l.entry_ports }

  -- `invalidate_component`.
  unfoldable pub invalidate_component : ℕ → Locality P K C X → Locality P K C X
  invalidate_component id l = elim (lookup id l.components) [
    | none ↦ l
    | some c ↦
        let l1 = calls.deactivate id l in
        if calls.is_active c
        then record l1 { components = erase id l1.components }
        else record l1 { invalidations = l1.invalidations ++ id ∷ [] }
  ]

  -- `invalidated`: whether the component is listed, and the list without its first occurrence.
  unfoldable pub invalidated : ℕ → Locality P K C X → Bool × Locality P K C X
  invalidated id l =
      if contains id l.invalidations
      then (
        true,
        record l { invalidations = erase_idx l.invalidations (index_of id l.invalidations) },
      )
      else (false, l)

  -- `activate_component`.
  unfoldable pub activate_component : ℕ → Locality P K C X → Option (Locality P K C X)
  activate_component id l = elim (lookup id l.components) [
    | none ↦ none
    | some c ↦
        let (was, l1) = invalidated id l in
        some (
          if was
          then record l1 { components = erase id l1.components }
          else try_collect id (calls.activate id l1))
  ]

  -- `make_future`: the counter has 32 bits.
  unfoldable pub make_future : Locality P K C X → ℕ × Locality P K C X
  make_future l =
      let next = (l.future_authority + 1) % 2 ^ 32 in (next, record l { future_authority = next })

  -- `emplace_component`: the counter has 64 bits.
  unfoldable pub emplace_component : C → Locality P K C X → ℕ × Locality P K C X
  emplace_component inst l =
      let next = (l.component_authority + 1) % 2 ^ 64 in
      (
        next,
        record l {
          component_authority = next;
          components = elim (lookup next l.components) [
            | none ↦ insert next inst l.components
            | some _ ↦ l.components
          ];
        },
      )

  -- The destructor: each waiting value is sent back to its port.
  loopback_all : P → List (Dev P X) → Locality P K C X → Locality P K C X
  loopback_all port [] l = l
  loopback_all port (dev ∷ devs) l = loopback_all port devs (record l {
    network = l.network ++ update_endpoint dev (to_port port) ∷ [];
    processed = l.processed + 1;
  })

  dump_queues : Assoc P (List (Dev P X)) → Locality P K C X → Locality P K C X
  unfolding loopback_all
  dump_queues [] l = l
  dump_queues ((port, q) ∷ qs) l = dump_queues qs (loopback_all port q l)

  unfoldable pub destroy : Locality P K C X → Locality P K C X
  unfolding dump_queues
  destroy l = record (dump_queues l.port_queue (record l { entry_ports = []; components = [] })) {
    port_queue = [];
  }
