-- ===== src/Sections/Broadcast/Flow.antt =====
-- The arithmetic of a broadcast: how often each node of the binary tree has been served (`taken`)
-- and how many broadcasters are on their way to it (`due`).
use hypercomm.Base.{ℕ, zero, suc, ◌+◌, ◌*◌, ◌/◌, ◌≤◌, ◌<◌, ◌≡◌, arith, nat_beq, if◌then◌else◌, Bool}

abbrev pub one : Bool → ℕ
one b = if b then 1 else 0

-- How many broadcasters a node is sent in all: one for the root, one for each service of the parent.
abbrev pub due : (ℕ → ℕ) → ℕ → ℕ
due taken zero = 1
due taken (suc k) = taken (k / 2)

-- Whatever was sent was served or is on its way.
abbrev pub IsFlow : ℕ → (ℕ → ℕ) → (ℕ → ℕ) → Type 0
IsFlow n taken pending = (k : ℕ) → k < n → taken k + pending k ≡ due taken k

abbrev pub serve : ℕ → (ℕ → ℕ) → ℕ → ℕ
serve i taken k = taken k + one (nat_beq i k)

taken-le-one_below :
    (f n : ℕ) (taken pending : ℕ → ℕ) (k : ℕ) → IsFlow n taken pending → k < n → k < f → taken k ≤ 1
taken-le-one_below zero n t p k fl h hf = absurd (omega arith)
taken-le-one_below (suc f) n t p zero fl h hf = omega (arith, fl 0 h)
taken-le-one_below (suc f) n t p (suc k) fl h hf =
    omega (arith, fl (suc k) h, taken-le-one_below f n t p (k / 2) fl (omega arith) (omega arith))

pub taken-le-one :
    (n : ℕ) (taken pending : ℕ → ℕ) (k : ℕ) → IsFlow n taken pending → k < n → taken k ≤ 1
taken-le-one n t p k fl h = taken-le-one_below (suc k) n t p k fl h (omega arith)

pub due-le-one :
    (n : ℕ) (taken pending : ℕ → ℕ) (k : ℕ) → IsFlow n taken pending → k < n → due taken k ≤ 1
due-le-one n t p zero fl h = omega arith
due-le-one n t p (suc k) fl h = taken-le-one n t p (k / 2) fl (omega arith)

taken-eq-one_below :
    (f n : ℕ) (taken pending : ℕ → ℕ) (k : ℕ)
    → IsFlow n taken pending
    → ((j : ℕ) → pending j ≡ 0)
    → k < n
    → k < f
    → taken k ≡ 1
taken-eq-one_below zero n t p k fl none h hf = absurd (omega arith)
taken-eq-one_below (suc f) n t p zero fl none h hf = omega (arith, fl 0 h, none 0)
taken-eq-one_below (suc f) n t p (suc k) fl none h hf = omega (
  arith,
  fl (suc k) h,
  none (suc k),
  taken-eq-one_below f n t p (k / 2) fl none (omega arith) (omega arith),
)

-- Once nothing is on its way, every node has been served.
pub taken-eq-one :
    (n : ℕ) (taken pending : ℕ → ℕ) (k : ℕ)
    → IsFlow n taken pending
    → ((j : ℕ) → pending j ≡ 0)
    → k < n
    → taken k ≡ 1
taken-eq-one n t p k fl none h = taken-eq-one_below (suc k) n t p k fl none h (omega arith)

-- To serve a node takes a broadcaster from it and sends one to each child.
pub serve-IsFlow :
    (n i : ℕ) (taken pending pending' : ℕ → ℕ)
    → IsFlow n taken pending
    → ((k : ℕ)
        → k < n
        → pending' k + one (nat_beq i k)
          ≡ pending k + one (nat_beq (2 * i + 1) k) + one (nat_beq (2 * i + 2) k))
    → IsFlow n (serve i taken) pending'
serve-IsFlow n i t p p' fl moved zero h = ground (arith, fl 0 h, moved 0 h)
serve-IsFlow n i t p p' fl moved (suc k) h = ground (arith, fl (suc k) h, moved (suc k) h)

abbrev pub total : ℕ → (ℕ → ℕ) → ℕ
total zero taken = 0
total (suc n) taken = total n taken + taken n

pub total-le : (n : ℕ) (taken : ℕ → ℕ) → ((k : ℕ) → k < n → taken k ≤ 1) → total n taken ≤ n
total-le zero t h = omega arith
total-le (suc n) t h = omega (arith, total-le n t (λ k l. h k (omega arith)), h n (omega arith))

total-serve_above : (n i : ℕ) (taken : ℕ → ℕ) → n ≤ i → total n (serve i taken) ≡ total n taken
total-serve_above zero i t h = omega arith
total-serve_above (suc n) i t h = ground (arith, total-serve_above n i t)

pub total-serve : (n i : ℕ) (taken : ℕ → ℕ) → i < n → total n (serve i taken) ≡ total n taken + 1
total-serve zero i t h = absurd (omega arith)
total-serve (suc n) i t h = ground (arith, total-serve n i t, total-serve_above n i t)
