-- ===== src/Sections/Reduction/Flow.antt =====
-- The arithmetic of a reduction: for each node of the binary tree whether it has contributed (`own`),
-- how many values have reached it (`have`), how many are on their way (`pend`), and how often its
-- reducer has completed (`fired`).
use hypercomm.Base.{
  ℕ, zero, suc, ◌+◌, ◌*◌, ◌/◌, ◌≤◌, ◌<◌, ◌≡◌, refl, arith, nat_beq, ltb, if◌then◌else◌,
}
use hypercomm.Sections.Broadcast.Flow.{one, serve, total}

-- How many children a node has in a tree of n nodes.
abbrev pub kids_of : ℕ → ℕ → ℕ
kids_of n k = one (ltb (2 * k + 1) n) + one (ltb (2 * k + 2) n)

-- The values that a node has or is sent are its own and those of its children.
abbrev pub IsFlow : ℕ → (ℕ → ℕ) → (ℕ → ℕ) → (ℕ → ℕ) → (ℕ → ℕ) → Type 0
IsFlow n own have fired pend =
    (k : ℕ) → k < n → have k + pend k ≡ own k + (fired (2 * k + 1) + fired (2 * k + 2))

-- A reducer completes once, and only those of nodes do.
abbrev pub IsOnce : ℕ → (ℕ → ℕ) → Type 0
IsOnce n fired = (k : ℕ) → fired k ≤ one (ltb k n)

pub own-IsFlow :
    (n i : ℕ) (own have fired pend : ℕ → ℕ)
    → IsFlow n own have fired pend
    → IsFlow n (serve i own) (serve i have) fired pend
own-IsFlow n i own have fired pend fl k h = omega (arith, fl k h)

pub arrive-IsFlow :
    (n i : ℕ) (own have fired pend pend' : ℕ → ℕ)
    → IsFlow n own have fired pend
    → ((k : ℕ) → k < n → pend' k + one (nat_beq i k) ≡ pend k)
    → IsFlow n own (serve i have) fired pend'
arrive-IsFlow n i own have fired pend pend' fl moved k h = omega (arith, fl k h, moved k h)

-- The root's result leaves the tree; another's goes to the parent.
pub root-IsFlow :
    (n : ℕ) (own have fired pend : ℕ → ℕ)
    → IsFlow n own have fired pend
    → IsFlow n own have (serve 0 fired) pend
root-IsFlow n own have fired pend fl k h = ground (arith, fl k h)

child_of :
    (j k : ℕ)
    → one (nat_beq (suc j) (2 * k + 1)) + one (nat_beq (suc j) (2 * k + 2))
      ≡ one (nat_beq (j / 2) k)
child_of j k = ground arith

pub fire-IsFlow :
    (n j : ℕ) (own have fired pend pend' : ℕ → ℕ)
    → IsFlow n own have fired pend
    → ((k : ℕ) → k < n → pend' k ≡ pend k + one (nat_beq (j / 2) k))
    → IsFlow n own have (serve (suc j) fired) pend'
fire-IsFlow n j own have fired pend pend' fl moved k h =
    omega (arith, fl k h, moved k h, child_of j k)

pub serve-IsOnce :
    (n i : ℕ) (fired : ℕ → ℕ) → IsOnce n fired → i < n → fired i ≡ 0 → IsOnce n (serve i fired)
serve-IsOnce n i fired once h out k = ground (arith, once k)

pub have-le :
    (n k : ℕ) (own have fired pend : ℕ → ℕ)
    → IsFlow n own have fired pend
    → IsOnce n fired
    → k < n
    → have k + pend k ≤ own k + kids_of n k
have-le n k own have fired pend fl once h =
    omega (arith, fl k h, once (2 * k + 1), once (2 * k + 2))

fired-child :
    (n j : ℕ) (fired : ℕ → ℕ) → IsOnce n fired → (j < n → fired j ≡ 1) → fired j ≡ one (ltb j n)
fired-child n j fired once inside = ground (arith, once j, inside)

fired_below :
    (f n k : ℕ) (own have fired pend : ℕ → ℕ)
    → IsFlow n own have fired pend
    → IsOnce n fired
    → ((j : ℕ) → j < n → own j ≡ 1)
    → ((j : ℕ) → pend j ≡ 0)
    → ((j : ℕ) → j < n → have j ≡ suc (kids_of n j) → fired j ≡ 1)
    → k < n
    → n ≤ k + f
    → fired k ≡ 1
fired_below zero n k own have fired pend fl once all quiet full h hf = absurd (omega arith)
fired_below (suc f) n k own have fired pend fl once all quiet full h hf =
    let below : (j : ℕ) → k < j → j < n → fired j ≡ 1 =
      λ j lt hj. fired_below f n j own have fired pend fl once all quiet full hj (omega arith) in
    full k h (
      omega (
        arith,
        fl k h,
        all k h,
        quiet k,
        fired-child n (2 * k + 1) fired once (below (2 * k + 1) (omega arith)),
        fired-child n (2 * k + 2) fired once (below (2 * k + 2) (omega arith)),
      ))

-- Once every node has contributed and nothing is on its way, every reducer has completed.
pub fired-eq-one :
    (n k : ℕ) (own have fired pend : ℕ → ℕ)
    → IsFlow n own have fired pend
    → IsOnce n fired
    → ((j : ℕ) → j < n → own j ≡ 1)
    → ((j : ℕ) → pend j ≡ 0)
    → ((j : ℕ) → j < n → have j ≡ suc (kids_of n j) → fired j ≡ 1)
    → k < n
    → fired k ≡ 1
fired-eq-one n k own have fired pend fl once all quiet full h =
    fired_below n n k own have fired pend fl once all quiet full h (omega arith)

-- Weights are moved from node to node.
abbrev pub put : ℕ → ℕ → (ℕ → ℕ) → ℕ → ℕ
put i v load k = if nat_beq i k then v else load k

total-put_above : (n i v : ℕ) (load : ℕ → ℕ) → n ≤ i → total n (put i v load) ≡ total n load
total-put_above zero i v load h = refl
total-put_above (suc n) i v load h = ground (arith, total-put_above n i v load)

pub total-put :
    (n i v : ℕ) (load : ℕ → ℕ) → i < n → total n (put i v load) + load i ≡ total n load + v
total-put zero i v load h = absurd (omega arith)
total-put (suc n) i v load h = ground (arith, total-put n i v load, total-put_above n i v load)
