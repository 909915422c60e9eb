-- ===== src/Sections/Broadcast.antt =====
-- include/hypercomm/core/broadcaster.hpp: a broadcast over a section, and the identities that
-- `indexed_locality_` (include/hypercomm/core/locality.hpp) keeps for it.
-- Each chare of the section is a `Site`; the network holds the broadcasters that are on their way,
-- and hands them over in any order.
pub mod Flow
pub mod Delivery
pub mod Exact
use hypercomm.Base.{
  ◌>>=◌, ℕ, zero, suc, Bool, List, [], ◌∷◌, ◌++◌, Option, none, some, map, get_elem?, erase_idx, Eq,
  ◌==◌, ◌≡◌, if◌then◌else◌,
}
use hypercomm.Base.Int.{pos}
use hypercomm.Sections.{Identity, identity, next_broadcast, accept_broadcast, upstream, index_at}

-- A chare's identity for the section, if it has been imprinted, and the messages received.
pub record Site (M : Type 0) : Type 0 where
  pub identity : Option Identity
  pub received : List M

-- A broadcaster on its way to `target`; `stamp` is null at the root.
pub record Task (I M : Type 0) : Type 0 where
  pub target : I
  pub stamp : Option (I × ℕ)
  pub msg : M

pub record Net (I M : Type 0) : Type 0 where
  pub sites : I → Site M
  pub pending : List (Task I M)

module _ {M : Type 0} where
  -- `identity_for`: a missing identity is imprinted, with seed 0.
  unfoldable pub identity_for : Site M → Identity
  unfolding identity
  identity_for s = elim s.identity [ none ↦ identity 0 | some ident ↦ ident ]

  -- The end of `action`: receive the message if the broadcast is accepted.
  abbrev pub receive_accepted : Bool × Identity → M → List M → Site M
  receive_accepted (accepted, ident) msg received = record {
    identity = some ident;
    received = if accepted then received ++ msg ∷ [] else received;
  }

module _ {I M : Type 0} ⦃e : Eq I⦄ where
  abbrev pub root_of : Task I M → I
  root_of t = elim t.stamp [ none ↦ t.target | some (root, _) ↦ root ]

  abbrev pub count_of : Task I M → Identity → ℕ
  count_of t ident = elim t.stamp [ none ↦ next_broadcast ident | some (_, count) ↦ count ]

  -- The copy of the broadcaster for the next element.
  abbrev pub next_task : I → ℕ → M → I → Task I M
  next_task root count msg idx = record { target = idx; stamp = some (root, count); msg = msg }

  -- `broadcaster::action` at the site of its target: the broadcasters that it sends, and the site.
  unfoldable pub action : List I → Task I M → Site M → Option (List (Task I M) × Site M)
  action members t s =
      let ident = identity_for s in
      let count = count_of t ident in
      upstream members t.target >>= λ ups. some (
        map (next_task (root_of t) count t.msg) ups,
        receive_accepted (accept_broadcast ident count) t.msg s.received,
      )

  abbrev pub update : (I → Site M) → I → Site M → I → Site M
  update sites i s j = if i == j then s else sites j

  -- The network delivers the pending broadcaster at a position; `none` is a failed assertion, or
  -- no such broadcaster.
  unfoldable pub deliver : List I → ℕ → Net I M → Option (Net I M)
  deliver members p net = get_elem? net.pending p >>= λ t.
      action members t (net.sites t.target) >>= λ (sent, s).
      some
        (record { sites = update net.sites t.target s; pending = erase_idx net.pending p ++ sent })

  -- `vil::broadcast`: an unstamped broadcaster is sent to the section's root.
  unfoldable pub broadcast : List I → (I → Site M) → M → Option (Net I M)
  broadcast members sites msg = index_at members (pos 0) >>= λ root.
      some
        (record { sites = sites; pending = record { target = root; stamp = none; msg = msg } ∷ [] })

  -- Deliveries in any order; the number counts them.
  pub data Reach (members : List I) (start : Net I M) : ℕ → Net I M → Type 0 where
    here : Reach members start 0 start
    next :
        {n : ℕ} {net net' : Net I M}
        → Reach members start n net
        → (p : ℕ) → deliver members p net ≡ some net'
        → Reach members start (suc n) net'
