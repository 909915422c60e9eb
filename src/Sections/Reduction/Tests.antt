-- ===== src/Sections/Reduction/Tests.antt =====
-- A sum over a section of three chares: the second contributes before the root, the third after it.
use hypercomm.Base.{
  ℕ, ◌+◌, ◌≡◌, refl, true, false, List, [], ◌∷◌, Option, none, some, arith, nat_eq, contains, sum,
  map, ap,
}
use hypercomm.Math.{left_child, right_child, parent}
use hypercomm.Reductions.{Contribution, new_reducer, action, feed, stored, finish, visit_all}
use hypercomm.Sections.{
  is_member, is_valid_ordinal, ordinal_for, upstream, downstream, push_valid, index_at, identity,
  next_reduction,
}
use hypercomm.Sections.Reduction.{
  Site, Net, contribute, deliver_packet, local_contribution, receive_contribution,
  accept_contribution, connect_all, connect_port, identity_of, Reach, here, contributes, delivers,
}
use hypercomm.Sections.Reduction.Weights.{weight}
use hypercomm.Sections.Reduction.Exact.{
  IsFresh, begin, Event, contribution_of, delivery_of, happen, reduction_progress,
  reduction_complete,
}

abbrev members : List ℕ
members = 10 ∷ 20 ∷ 30 ∷ []

-- A combiner of numbers.
abbrev add_up : ℕ → List ℕ → Option ℕ
add_up fn args = some (sum args)

map_itself : (args : List ℕ) → map (λ m. m) args ≡ args
map_itself [] = refl
map_itself (x ∷ xs) = ap (λ ys. x ∷ ys) (map_itself xs)

add_up-adds : (args : List ℕ) → weight (λ m. m) (add_up 0 args) ≡ sum (map (λ m. m) args)
add_up-adds args = rw (map_itself args) refl

abbrev values : ℕ → Option ℕ
values i = some (i + 1)

abbrev sites : ℕ → Site ℕ ℕ ℕ ℕ
sites i = record {
  identity = none;
  is_open = λ _. false;
  components = λ _. none;
  port_queue = λ _. [];
}

sites-IsFresh : IsFresh members 0 sites
unfolding identity_of identity
sites-IsFresh = record {
  distinct = (refl, (refl, (refl, tt)));
  count = λ i h. refl;
  closed = λ i h p. refl;
  no_values = λ i h u. refl;
}

abbrev after : Event ℕ → Net ℕ ℕ ℕ ℕ → Net ℕ ℕ ℕ ℕ
after ev net = elim (happen add_up members values 0 99 ev net) [ none ↦ net | some net' ↦ net' ]

abbrev early : Net ℕ ℕ ℕ ℕ
early = after (delivery_of 0) (after (contribution_of 20) (begin sites))

abbrev finished : Net ℕ ℕ ℕ ℕ
finished = after (delivery_of 0) (after (contribution_of 30) (after (contribution_of 10) early))

early-Reach : Reach add_up members values 0 99 (begin sites) (20 ∷ []) early
unfolding contribute deliver_packet local_contribution receive_contribution accept_contribution
    connect_all connect_port upstream downstream push_valid is_valid_ordinal ordinal_for index_at
    is_member identity identity_of next_reduction left_child right_child parent new_reducer action
    feed stored finish visit_all
early-Reach = delivers (contributes here 20 refl refl refl) 0 refl

finished-Reach : Reach add_up members values 0 99 (begin sites) (30 ∷ 10 ∷ 20 ∷ []) finished
unfolding contribute deliver_packet local_contribution receive_contribution accept_contribution
    connect_all connect_port upstream downstream push_valid is_valid_ordinal ordinal_for index_at
    is_member identity identity_of next_reduction left_child right_child parent new_reducer action
    feed stored finish visit_all
finished-Reach =
    delivers (contributes (contributes early-Reach 10 refl refl refl) 30 refl refl refl) 0 refl

all_contributed : (i : ℕ) → is_member members i ≡ true → contains i (30 ∷ 10 ∷ 20 ∷ []) ≡ true
unfolding is_member is_valid_ordinal ordinal_for
all_contributed i h = ground arith

reduction_progress_example :
    (net' : Net ℕ ℕ ℕ ℕ) × (happen add_up members values 0 99 (contribution_of 10) early
      ≡ some net')
unfolding is_member is_valid_ordinal ordinal_for
reduction_progress_example =
    reduction_progress add_up (λ m. m) members 0 0 99 values sites add_up-adds sites-IsFresh
      (contribution_of 10) early-Reach (refl, refl)

reduction_complete_example :
    (r : Contribution ℕ ℕ ℕ) × (finished.calls ≡ (99, r) ∷ []) × (weight (λ m. m) r.msg ≡ 63)
unfolding contribute deliver_packet local_contribution receive_contribution accept_contribution
    connect_all connect_port upstream downstream push_valid is_valid_ordinal ordinal_for index_at
    is_member identity identity_of next_reduction left_child right_child parent new_reducer action
    feed stored finish visit_all
reduction_complete_example =
    reduction_complete add_up (λ m. m) members 0 0 99 values sites add_up-adds sites-IsFresh
      finished-Reach all_contributed refl (omega arith)
