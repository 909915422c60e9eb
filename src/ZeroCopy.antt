-- ===== src/ZeroCopy.antt =====
-- src/hypercomm/core/locality.cc (post_buffer, poll_buffer, receive_value, zero_copy_payload_) and
-- include/hypercomm/core/generic_locality.hpp (manual_mode): the locality's buffers for values that
-- are fetched from the memory of their sender. A buffer `B` is posted for an endpoint `E`; a request
-- `R` is for one buffer of a zero-copy value, of `cnt` bytes. `started` lists the gets that were
-- issued, and `created` and `processed` count the calls of `QdCreate` and `QdProcess`.
mod Queues
pub mod Matching
mod Tests
use hypercomm.Base.{
  ℕ, ◌+◌, Bool, List, [], ◌∷◌, ◌++◌, Option, none, some, null, leb, if◌then◌else◌, Eq, Assoc,
  lookup, lookup_or, insert, erase, emplace,
}

-- The memory that a get writes to: posted, of a size, or registered on demand.
pub data Memory (B : Type 0) : Type 0 where
  posted : B → ℕ → Memory B
  registered : ℕ → Memory B

pub record State (E B R : Type 0) : Type 0 where
  pub buffers : Assoc E (List (B × ℕ))
  pub outstanding : Assoc E (List (R × ℕ))
  pub started : List (R × ℕ × Memory B)
  pub created : ℕ
  pub processed : ℕ

-- `std::find_if` and what `erase` at its result leaves.
unfoldable pub take_first : {A : Type 0} → (A → Bool) → List A → Option (A × List A)
take_first test [] = none
take_first test (x ∷ xs) =
    if test x
    then some (x, xs)
    else elim (take_first test xs) [ none ↦ none | some (y, rest) ↦ some (y, x ∷ rest) ]

-- `find_applicable` of `post_buffer`, and the search of `poll_buffer`.
unfoldable pub find_applicable : {R : Type 0} → ℕ → List (R × ℕ) → Option ((R × ℕ) × List (R × ℕ))
find_applicable size q = take_first (λ r. leb r.1 size) q

unfoldable pub find_large : {B : Type 0} → ℕ → List (B × ℕ) → Option ((B × ℕ) × List (B × ℕ))
find_large goal q = take_first (λ b. leb goal b.1) q

-- What `poll_buffer` finds: memory for the get, or the queue of outstanding requests.
pub data Polled (B : Type 0) : Type 0 where
  found : Memory B → Polled B
  waits : Polled B

module _ {E B R : Type 0} ⦃e : Eq E⦄ where
  -- `manual_mode`.
  unfoldable pub manual_mode : E → State E B R → State E B R
  manual_mode ep s = record s { outstanding = emplace ep [] s.outstanding }

  -- `post_buffer`.
  unfoldable pub post_buffer : E → B → ℕ → State E B R → State E B R
  post_buffer ep buffer size s =
      let saved : State E B R = record s {
        buffers = insert ep (lookup_or ep [] s.buffers ++ (buffer, size) ∷ []) s.buffers;
      } in
      elim (lookup ep s.outstanding) [
        | none ↦ saved
        | some queue ↦ elim (find_applicable size queue) [
          | none ↦ saved
          | some (request, rest) ↦ record s {
            started = s.started ++ (request.0, request.1, posted buffer size) ∷ [];
            outstanding = insert ep rest s.outstanding;
            processed = s.processed + 1;
          }
        ]
      ]

  abbrev pub save_queue : E → List (B × ℕ) → State E B R → State E B R
  save_queue ep rest s = record s {
    buffers = if null rest then erase ep s.buffers else insert ep rest s.buffers;
  }

  -- The end of `poll_buffer`, when no buffer was found.
  unfoldable pub poll_outstanding : E → ℕ → State E B R → Polled B
  poll_outstanding ep goal s = elim (lookup ep s.outstanding) [
    | none ↦ found (registered goal)
    | some _ ↦ waits
  ]

  -- `poll_buffer`.
  unfoldable pub poll_buffer : E → ℕ → State E B R → Polled B × State E B R
  poll_buffer ep goal s = elim (lookup ep s.buffers) [
    | none ↦ (poll_outstanding ep goal s, s)
    | some queue ↦ elim (find_large goal queue) [
      | none ↦ (poll_outstanding ep goal s, s)
      | some (buffer, rest) ↦ (found (posted buffer.0 buffer.1), save_queue ep rest s)
    ]
  ]

  -- What the loop of `receive_value` does with the result: the get starts, or the request waits.
  unfoldable pub answer : E → R → ℕ → Polled B × State E B R → State E B R
  answer ep r cnt (found memory, s) = record s { started = s.started ++ (r, cnt, memory) ∷ [] }
  answer ep r cnt (waits, s) = record s {
    outstanding = insert ep (lookup_or ep [] s.outstanding ++ (r, cnt) ∷ []) s.outstanding;
    created = s.created + 1;
  }

  -- The body of the loop, for one buffer of the value.
  unfoldable pub request_buffer : E → R → ℕ → State E B R → State E B R
  request_buffer ep r cnt s = answer ep r cnt (poll_buffer ep cnt s)

-- The calls that change the state, in any order.
pub data Call (E B R : Type 0) : Type 0 where
  manual : E → Call E B R
  post : E → B → ℕ → Call E B R
  request : E → R → ℕ → Call E B R

module _ {E B R : Type 0} ⦃e : Eq E⦄ where
  unfoldable pub step : Call E B R → State E B R → State E B R
  step (manual ep) s = manual_mode ep s
  step (post ep b size) s = post_buffer ep b size s
  step (request ep r cnt) s = request_buffer ep r cnt s

  unfoldable pub run : List (Call E B R) → State E B R → State E B R
  run [] s = s
  run (call ∷ calls) s = run calls (step call s)

abbrev pub fresh : {E B R : Type 0} → State E B R
fresh = record { buffers = []; outstanding = []; started = []; created = 0; processed = 0 }
