-- ===== src/Lib.antt =====
-- hypercomm: components, collectives and messaging for chares on the Charm++ runtime.
--
-- The program's parts and the modules that model them. Paths are from the repository's root.
--
-- - Math: hash combination and the algebra of binary trees (include/hypercomm/core/math.hpp).
-- - Sections: a section is a list of indices, whose members form a spanning tree; an identity holds a
--   member's counters (include/hypercomm/sections/). Sections.Broadcast is `broadcaster::action`
--   (include/hypercomm/core/broadcaster.hpp) over a network that hands the broadcasters over in any
--   order: a step relation `Reach`, with the identities that core/locality.hpp keeps.
--   Sections.Reduction is `vil::local_contribution` (core/locality.hpp) with the reducers of
--   `Reductions`, over a network that hands over what reducers forward, in any order.
-- - Components: the partial input sets (Inbox), the outputs with their connections and buffers
--   (Outbox), and the life of a component: accept, stage_action, activate, deactivate (Component);
--   include/hypercomm/components/inbox.hpp, outbox.hpp, connector.hpp, base.hpp, component.hpp.
--   The locality around a component is the interface `Context`, its virtual action the record
--   `Behaviour`. Exceptions and aborts are the values of `Exit`.
-- - Mailbox: requests and buffered values (include/hypercomm/components/mailbox.hpp).
-- - Workgroup: tasks and the messages for their continuations (src/hypercomm/tasking/workgroup.cc,
--   include/hypercomm/tasking/workgroup.hpp); Workgroup.Migration is their `pup`, whose images hold
--   the fields in order.
-- - Locality: ports, components and waiting values of a chare (src/hypercomm/core/locality.cc,
--   include/hypercomm/core/generic_locality.hpp). Virtual calls are the record `Calls`.
-- - Interceptor: forwarding, buffering and routing of messages (src/hypercomm/messaging/interceptor.cc).
-- - TreeBuilder: a node's part in building the spanning tree of an array's elements
--   (include/hypercomm/tree_builder/tree_builder.hpp, manageable_base.hpp).
-- - Messages: messages with their destinations, flags and payloads, deliverables and endpoints, and how
--   values become messages, cross nodes and are read again (src/hypercomm/messaging/messaging.cc, interceptor.cc,
--   include/hypercomm/messaging/, core/typed_value.hpp, core/zero_copy_value.hpp). The runtime's
--   allocation, the ports' and the values' own serialization are the records `Runtime`, `PortCodec`,
--   `ValueCodec` and `Buffers`. ZeroCopy: the requests for blocks of memory and the buffers that are
--   posted for them (src/hypercomm/core/locality.cc).
-- - Threads: the identifiers of threads, their pools and their migration
--   (include/hypercomm/core/threading.hpp). Pool: the allocator of small maps
--   (include/hypercomm/utilities/small_map.hpp). Enrollment: the registry of polymorphic types
--   (src/hypercomm/serialization/enrollment.cc).
-- - Futures: `wait_any`, the ports of its futures, and the callback that resumes its thread
--   (include/hypercomm/core/wait_any.hpp, resuming_callback.hpp, locality.hpp).
-- - Reductions: `reducer::action` (src/hypercomm/core/locality.cc) and what a stamp affects
--   (include/hypercomm/reductions/). Manageable: staged changes of the children of a managed chare
--   (include/hypercomm/tree_builder/manageable.hpp); its calls of the locality are the record `Calls`.
-- - StateServer, Microstack, Multistate: include/hypercomm/components/state_server.hpp,
--   microstack.hpp, and how multistate_component.hpp takes values.
-- - Serialization: values as bytes (include/hypercomm/serialization/serdes.hpp, pup.hpp). Containers has
--   the pupers of values that hold their parts; Records and Pointers have the records by which a pass
--   knows shared objects, and the packing and unpacking of a heap of polymorphs.
-- - Proxies: comparison, location and hashes of proxies (include/hypercomm/core/proxy.hpp,
--   include/hypercomm/utilities/hash.hpp); the runtime behind them is a record of their own, `Runtime`.
-- - Base: the shared helpers, sequences, maps and integers.
--
-- How they interact: a message reaches its chare by the interceptor, which hands it to the locality's
-- `receive`; by the port it goes to a component's `accept`, whose outputs go back to the locality by
-- `passthru`. Broadcasts and reductions follow the identities of a section, and the tree builder sets up the tree of
-- an array. Each part is modelled with the others as parameters.
--
-- Conventions. A null value is `none`. A failed assertion or an abort is `none`, or an exit. Maps are
-- association lists. Identifiers are native numbers, and the counters of 32 and 64 bits wrap around
-- where they are incremented; hashes are modulo 2 ^ 64. Ordinals and nodes are integers.
--
-- Bounds and fuel. Packing and unpacking a heap recur on fuel; more than the objects of the heap is
-- enough. `activate_loop` has one round more than there are sets, `action_loop` of a mailbox
-- one more than requests, `try_continue` one more than buffered payloads, `dealias` one more than
-- forwarding requests, `resolve_transactions` one more than staged
-- transactions, and each round uses one up; the theorems show that this is enough. `receive`
-- and `resync_loop` take their fuel as arguments, since a delivery may cause others. `from_message`
-- has fuel for messages nested in reduction messages; one round reads a message that is none.
-- `deliver` of the interceptor has fuel for the times it enters itself through `send_async`; one
-- round is enough where the cache is right. The loop of `check_status` has one for each subscriber.
--
-- Not modelled: the Charm++ runtime (location managers, scheduling, quiescence detection, its own
-- reductions), whose documented operations are parameters, with the start-up code and the maps of
-- arrays that only call it (core/module.hpp, core/locality_map.hpp); converse messages and the
-- resumption of threads, which are the runtime's; how a future is requested from another chare and
-- how actions are packed, which are messages as any others; what tasks send, which goes through the
-- runtime's own reductions and messages; the start-up of managed chares from a stamp; sentinels, whose
-- loop over a vector that it shrinks has no defined behaviour; pointers to values that are no
-- polymorphs; a component that is called again while it delivers; the locks of the tree builder; type
-- traits and macros, which only act at compile time. A reduction over a section is modelled for one
-- section at a time, from a state in which the members agree on its count.
pub mod Base
pub mod Math
pub mod Sections
pub mod Components
pub mod Enrollment
pub mod Futures
pub mod Interceptor
pub mod Locality
pub mod Mailbox
pub mod Manageable
pub mod Messages
pub mod Microstack
pub mod Multistate
pub mod Pool
pub mod Proxies
pub mod Reductions
pub mod Serialization
pub mod StateServer
pub mod Threads
pub mod TreeBuilder
pub mod Workgroup
pub mod ZeroCopy
