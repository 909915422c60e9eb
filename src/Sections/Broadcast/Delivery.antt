-- ===== src/Sections/Broadcast/Delivery.antt =====
-- Every member of a section receives a broadcast exactly once, in whatever order the network
-- delivers, and no delivery fails.
use mathlib.Core.List.{map-append}
use hypercomm.Base.{
  ℕ, zero, suc, ◌+◌, ◌*◌, ◌≤◌, ◌<◌, ◌≡◌, refl, ap, ◌⊎◌, inl, inr, false, List, [], ◌∷◌, ◌++◌, none,
  some, map, arith, length, get_elem?, erase_idx, index_of, Eq, ◌==◌, nat_beq, leb, Distinct, All,
  All-append, All-erase_idx, lt-length_of_get_elem?, ==_sound, Bool-cases, get_elem?-index_of,
  nat_beq_iff, ==_refl, nat_eq, All-get_elem?, Option-cases, index_of-get_elem?, get_elem?-lt,
}
use hypercomm.Sections.{next_broadcast, accept_broadcast}
use hypercomm.Sections.Tree.{at, children, upstream-member}
use hypercomm.Sections.Broadcast.{
  Site, Task, Net, identity_for, count_of, root_of, action, deliver, next_task, update,
}
use hypercomm.Sections.Broadcast.Flow.{one, IsFlow, serve, due-le-one, serve-IsFlow}

module _ {I M : Type 0} ⦃e : Eq I⦄ (ms : List I) where
  -- How many pending broadcasters are on their way to the member at a position.
  abbrev pub heading : List (Task I M) → ℕ → ℕ
  heading [] k = 0
  heading (t ∷ ts) k = one (nat_beq (index_of t.target ms) k) + heading ts k

  heading-append :
      (ts us : List (Task I M)) (k : ℕ) → heading (ts ++ us) k ≡ heading ts k + heading us k
  heading-append [] us k = omega arith
  heading-append (t ∷ ts) us k = omega (arith, heading-append ts us k)

  heading-erase_idx :
      (ts : List (Task I M)) (p k : ℕ) (t : Task I M)
      → get_elem? ts p ≡ some t
      → heading (erase_idx ts p) k + one (nat_beq (index_of t.target ms) k) ≡ heading ts k
  heading-erase_idx [] p k t h = cc
  heading-erase_idx (u ∷ ts) zero k t h =
      let same : u ≡ t = cc in
      omega (arith, ap (λ (w : Task I M). one (nat_beq (index_of w.target ms) k)) same)
  heading-erase_idx (u ∷ ts) (suc p) k t h = omega (arith, heading-erase_idx ts p k t h)

  heading-at :
      (root : I) (c : ℕ) (m : M) (q k : ℕ)
      → Distinct ms
      → k < length ms
      → heading (map (next_task root c m) (at ms q)) k ≡ one (nat_beq q k)
  heading-at root c m q k d h = elim (Option-cases (get_elem? ms q)) [
    | inl out ↦ rw out (missing out)
    | inr (x, f) ↦ rw (f, index_of-get_elem? ms q x d f) (omega arith)
  ]
    where
      missing : get_elem? ms q ≡ none → 0 ≡ one (nat_beq q k)
      missing out = ground (arith, get_elem?-lt ms q)

module _ {I M : Type 0} ⦃e : Eq I⦄ (ms : List I) (root : I) (c : ℕ) (m : M)
    (start : I → Site M) where
  -- A site before and after it was served.
  abbrev pub after : ℕ → Site M → Site M
  after zero s = s
  after (suc _) s = record {
    identity = some (record (identity_for s) { bcast_count = c });
    received = s.received ++ m ∷ [];
  }

  -- A pending broadcaster is for a member, and is stamped but for the first one, to the root.
  abbrev pub IsTask : Task I M → Type 0
  IsTask t =
      (index_of t.target ms < length ms)
      × (t.msg ≡ m)
      × ((t.stamp ≡ some (root, c)) ⊎ ((t.stamp ≡ none) × (t.target ≡ root)))

  -- What the broadcast starts from: it is newer than all that the members have accepted.
  pub record IsFresh : Type 0 where
    pub distinct : Distinct ms
    pub count : next_broadcast (identity_for (start root)) ≡ c
    pub newer : (i : I) → index_of i ms < length ms → (identity_for (start i)).bcast_count < c

  pub record Inv (net : Net I M) (taken : ℕ → ℕ) : Type 0 where
    pub flow : IsFlow (length ms) taken (heading ms net.pending)
    pub tasks : All IsTask net.pending
    pub members :
        (i : I) → index_of i ms < length ms → net.sites i ≡ after (taken (index_of i ms)) (start i)
    pub others : (i : I) → length ms ≤ index_of i ms → net.sites i ≡ start i

  count_of-task :
      (t : Task I M)
      → IsFresh
      → IsTask t
      → (count_of t (identity_for (start t.target)) ≡ c) × (root_of t ≡ root)
  count_of-task t f (_, _, inl stamped) = (rw stamped, rw stamped)
  count_of-task t f (_, _, inr (first, target)) = (rw (first, target) f.count, rw (first, target))

  action-fresh :
      (t : Task I M)
      → IsFresh
      → IsTask t
      → action ms t (start t.target)
        ≡ some (
          map (next_task root c m) (children ms (index_of t.target ms)),
          after 1 (start t.target),
        )
  unfolding action accept_broadcast
  action-fresh t f h =
      let i = index_of t.target ms in
      let counted = count_of-task t f h in
      rw (
        upstream-member ms t.target h.0,
        counted.0,
        counted.1,
        h.1,
        newer_accepted (f.newer t.target h.0),
      )
    where
      newer_accepted : {n : ℕ} → n < c → leb c n ≡ false
      newer_accepted lt = ground arith

  at-IsTask : Distinct ms → (q : ℕ) → All IsTask (map (next_task root c m) (at ms q))
  at-IsTask d q = elim (Option-cases (get_elem? ms q)) [
    | inl out ↦ rw out tt
    | inr (x, f) ↦ rw f (
      (
        omega (arith, index_of-get_elem? ms q x d f, lt-length_of_get_elem? ms q x f),
        refl,
        inl refl,
      ),
      tt,
    )
  ]

  pub served : (net : Net I M) → Task I M → ℕ → Net I M
  served net t p = record {
    sites = update net.sites t.target (after 1 (start t.target));
    pending =
        erase_idx net.pending p ++ map (next_task root c m) (children ms (index_of t.target ms));
  }

  module _ (net : Net I M) (taken : ℕ → ℕ) (f : IsFresh) (v : Inv net taken) (p : ℕ) (t : Task I M)
      (found : get_elem? net.pending p ≡ some t) where
    abbrev i : ℕ
    i = index_of t.target ms

    pub task : IsTask t
    task = All-get_elem? IsTask net.pending p t v.tasks found

    -- A member to which a broadcaster is on its way has not been served.
    untaken : taken i ≡ 0
    untaken = omega (
      arith,
      heading-erase_idx ms net.pending p i t found,
      ap one (==_refl i),
      v.flow i task.0,
      due-le-one (length ms) taken (heading ms net.pending) i v.flow task.0,
    )

    pub deliver-served : deliver ms p net ≡ some (served net t p)
    unfolding deliver served
    deliver-served = rw (found, v.members t.target task.0, untaken, action-fresh t f task)

    served-IsFlow : IsFlow (length ms) (serve i taken) (heading ms (served net t p).pending)
    unfolding served
    served-IsFlow = serve-IsFlow (length ms) i taken (heading ms net.pending) _ v.flow moved
      where
        moved :
            (k : ℕ)
            → k < length ms
            → heading ms (served net t p).pending k + one (nat_beq i k)
              ≡ heading ms net.pending k + one (nat_beq (2 * i + 1) k) + one (nat_beq (2 * i + 2) k)
        moved k h =
            rw
              (
                heading-append ms (erase_idx net.pending p),
                map-append (next_task root c m),
                heading-append ms (map (next_task root c m) (at ms (2 * i + 1))),
                heading-at ms root c m (2 * i + 1) k f.distinct h,
                heading-at ms root c m (2 * i + 2) k f.distinct h,
              )
              (omega (arith, heading-erase_idx ms net.pending p k t found))

    served-tasks : All IsTask (served net t p).pending
    unfolding served
    served-tasks =
        All-append IsTask (erase_idx net.pending p) _ (All-erase_idx IsTask net.pending p v.tasks) (
          rw (map-append (next_task root c m)) (
            All-append IsTask (map (next_task root c m) (at ms (2 * i + 1))) _
              (at-IsTask f.distinct (2 * i + 1)) (at-IsTask f.distinct (2 * i + 2))))

    served-members :
        (j : I)
        → index_of j ms < length ms
        → (served net t p).sites j ≡ after (serve i taken (index_of j ms)) (start j)
    unfolding served
    served-members j h = elim (Bool-cases (t.target == j)) [
      | inl same ↦ rw (same, ← ==_sound t.target j same, untaken, ==_refl i)
      | inr other ↦ rw (other, serve-other other) (v.members j h)
    ]
      where
        serve-other : t.target == j ≡ false → serve i taken (index_of j ms) ≡ taken (index_of j ms)
        serve-other other = ground (
          arith,
          e.equal_iff t.target j,
          get_elem?-index_of j ms h,
          get_elem?-index_of t.target ms task.0,
          nat_beq_iff i (index_of j ms),
        )

    served-others : (j : I) → length ms ≤ index_of j ms → (served net t p).sites j ≡ start j
    unfolding served
    served-others j h = elim (Bool-cases (t.target == j)) [
      | inl same ↦
          absurd (omega (arith, ap (λ (x : I). index_of x ms) (==_sound t.target j same), task.0))
      | inr other ↦ rw other (v.others j h)
    ]

    pub served-Inv : Inv (served net t p) (serve i taken)
    served-Inv = record {
      flow = served-IsFlow;
      tasks = served-tasks;
      members = served-members;
      others = served-others;
    }
