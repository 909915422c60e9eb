-- ===== src/Sections/Tests.antt =====
-- A section of three chares, and one broadcast over it.
use hypercomm.Base.{
  ℕ, ◌≤◌, ◌≡◌, refl, List, [], ◌∷◌, ◌++◌, none, some, arith, length, nat_eq, contains,
  if◌then◌else◌,
}
use hypercomm.Sections.{
  is_member, is_valid_ordinal, ordinal_for, upstream, downstream, push_valid, index_at, identity,
  next_broadcast, accept_broadcast,
}
use hypercomm.Math.{left_child, right_child}
use hypercomm.Sections.Tree.{upstream-downstream}
use hypercomm.Sections.Broadcast.{
  Site, Net, identity_for, action, deliver, broadcast, Reach, here, next,
}
use hypercomm.Sections.Broadcast.Delivery.{IsFresh}
use hypercomm.Sections.Broadcast.Exact.{broadcast_progress, broadcast_complete}

abbrev members : List ℕ
members = 10 ∷ 20 ∷ 30 ∷ []

upstream-downstream_example :
    (us : List ℕ) × (ds : List ℕ) × (upstream members 10 ≡ some us)
    × (downstream members 30 ≡ some ds)
    × (contains 30 us ≡ contains 10 ds)
unfolding is_member is_valid_ordinal ordinal_for
upstream-downstream_example = upstream-downstream members 10 30 (refl, (refl, (refl, tt))) refl refl

abbrev sites : ℕ → Site ℕ
sites i = record { identity = none; received = i ∷ [] }

abbrev started : Net ℕ ℕ
started = record { sites = sites; pending = record { target = 10; stamp = none; msg = 7 } ∷ [] }

abbrev after : ℕ → Net ℕ ℕ → Net ℕ ℕ
after p net = elim (deliver members p net) [ none ↦ net | some net' ↦ net' ]

abbrev finished : Net ℕ ℕ
finished = after 0 (after 1 (after 0 started))

sites-IsFresh : IsFresh members 10 1 7 sites
unfolding next_broadcast identity_for identity
sites-IsFresh = record {
  distinct = (refl, (refl, (refl, tt)));
  count = refl;
  newer = λ i h. omega arith;
}

sites-broadcast : broadcast members sites 7 ≡ some started
unfolding broadcast index_at
sites-broadcast = refl

finished-Reach : Reach members started 3 finished
unfolding deliver action upstream push_valid is_valid_ordinal ordinal_for index_at identity_for
    identity next_broadcast accept_broadcast left_child right_child
finished-Reach = next (next (next here 0 refl) 1 refl) 0 refl

broadcast_progress_example :
    (1 ≤ length members) × ((net' : Net ℕ ℕ) × (deliver members 0 started ≡ some net'))
broadcast_progress_example =
    broadcast_progress members 10 1 7 sites sites-IsFresh refl 0 sites-broadcast here (omega arith)

broadcast_complete_example :
    (3 ≡ length members)
    × ((finished.sites 20).received
        ≡ (if is_member members 20 then (sites 20).received ++ 7 ∷ [] else (sites 20).received))
unfolding deliver action upstream push_valid is_valid_ordinal ordinal_for index_at identity_for
    identity next_broadcast accept_broadcast left_child right_child
broadcast_complete_example =
    broadcast_complete members 10 1 7 sites sites-IsFresh refl 20 sites-broadcast finished-Reach
      refl
