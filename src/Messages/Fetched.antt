-- ===== src/Messages/Fetched.antt =====
-- A zero-copy value while its blocks arrive (include/hypercomm/core/zero_copy_value.hpp).
use hypercomm.Base.{
  ℕ, zero, suc, ◌+◌, ◌<◌, ◌≡◌, ◌≢◌, refl, sym, ap, true, false, ◌||◌, List, [], ◌∷◌, map, Option,
  none, some, arith, ltb, length, null, set, replicate, get_elem?, length-set, length-replicate,
  get_elem?-set_self, get_elem?-set_ne, lt-length_of_get_elem?, contains, nat_beq, nat_eq,
  nat_beq_iff, if◌then◌else◌, ◌>>=◌, Bool-cases, if_true, if_false, inl, inr, All,
}
use hypercomm.Messages.{Message, Runtime, PortCodec, buffer_of}
use hypercomm.Messages.Deliverables.{ZeroCopyValue, learn_endpoint, ready, receive_buffer}
use hypercomm.Messages.Typed.{Buffers}

module _ {P : Type 0} where
  -- The memory that the gets fetched, in the order in which they completed.
  unfoldable pub receive_all : List (ℕ × List ℕ) → ZeroCopyValue P → ZeroCopyValue P
  receive_all [] zc = zc
  receive_all ((pos, memory) ∷ arrivals) zc = receive_all arrivals (receive_buffer pos memory zc).1

  -- What `receive_value` makes of a zero-copy message.
  unfoldable pub open_value : Runtime → PortCodec P → Buffers → Message P → Option (ZeroCopyValue P)
  open_value rt ports ncpy m = do
    (buffers, rest) ← ncpy.get_buffers (buffer_of rt ports m)
    let (ep, m') = learn_endpoint m in
        some (record {
          buffers = buffers;
          values = [];
          n_received = 0;
          ep = ep;
          msg = m';
          offset = rest;
        })

-- Each arrival is for a buffer of the value, and holds its contents.
abbrev pub AreFetched : List (List ℕ) → List (ℕ × List ℕ) → Type 0
AreFetched buffers arrivals = All (λ a. get_elem? buffers a.0 ≡ some a.1) arrivals

-- What stands in the slots: the contents of the buffers that have been received.
abbrev pub slots : {P : Type 0} → ZeroCopyValue P → List (Option (List ℕ))
slots zc = if null zc.values then replicate (length zc.buffers) none else zc.values

-- Positions in the order opposite to that of the arrivals.
unfoldable reverse_onto : List ℕ → List ℕ → List ℕ
reverse_onto [] got = got
reverse_onto (pos ∷ rest) got = reverse_onto rest (pos ∷ got)

length-reverse_onto : (xs got : List ℕ) → length (reverse_onto xs got) ≡ length xs + length got
unfolding reverse_onto
length-reverse_onto [] got = omega arith
length-reverse_onto (x ∷ xs) got = omega (arith, length-reverse_onto xs (x ∷ got))

contains-reverse_onto :
    (i : ℕ) (xs got : List ℕ) → contains i (reverse_onto xs got) ≡ (contains i xs || contains i got)
unfolding reverse_onto
contains-reverse_onto i [] got = refl
contains-reverse_onto i (x ∷ xs) got = ground (arith, contains-reverse_onto i xs (x ∷ got))

-- Slots that agree with the buffers everywhere.
all_filled :
    (bs : List (List ℕ)) (vs : List (Option (List ℕ)))
    → length vs ≡ length bs
    → ((i : ℕ) (b : List ℕ) → get_elem? bs i ≡ some b → get_elem? vs i ≡ some (some b))
    → vs ≡ map some bs
all_filled [] [] h f = refl
all_filled [] (v ∷ vs) h f = absurd (omega arith)
all_filled (b ∷ bs) [] h f = absurd (omega arith)
all_filled (b ∷ bs) (v ∷ vs) h f =
    let first : some v ≡ some (some b) = f 0 b refl in
    let same : v ≡ some b = cc in
    rw (same, all_filled bs vs (omega arith) (λ i c at. f (suc i) c at)) refl

used_slots :
    (vs : List (Option (List ℕ))) (n : ℕ) (bs : List (List ℕ))
    → 0 < length bs
    → (if null vs then replicate n none else vs) ≡ map some bs
    → vs ≡ map some bs
used_slots vs n [] h e = absurd (omega arith)
used_slots [] zero (b ∷ bs) h e = cc
used_slots [] (suc n) (b ∷ bs) h e = cc
used_slots (v ∷ vs) n (b ∷ bs) h e = e

length-map : {A B : Type 0} (f : A → B) (xs : List A) → length (map f xs) ≡ length xs
length-map f [] = refl
length-map f (x ∷ xs) = ap suc (length-map f xs)

pub null_long : {A : Type 0} (xs : List A) → 0 < length xs → null xs ≡ false
null_long [] h = absurd (omega arith)
null_long (x ∷ xs) h = refl

module _ {P : Type 0} where
  -- Between two arrivals, where `got` lists the positions so far.
  pub record IsPartial (got : List ℕ) (start zc : ZeroCopyValue P) : Type 0 where
    pub same_buffers : zc.buffers ≡ start.buffers
    pub same_offset : zc.offset ≡ start.offset
    pub same_ep : zc.ep ≡ start.ep
    pub counted : zc.n_received ≡ length got
    pub sized : length (slots zc) ≡ length start.buffers
    pub filled :
        (i : ℕ) (b : List ℕ)
        → contains i got ≡ true
        → get_elem? start.buffers i ≡ some b
        → get_elem? (slots zc) i ≡ some (some b)

  -- A buffer that is there is received.
  after : ℕ → List ℕ → ZeroCopyValue P → ZeroCopyValue P
  after pos memory zc = record zc {
    values = set (slots zc) pos (some memory);
    n_received = zc.n_received + 1;
  }

  receive_buffer-there :
      (zc : ZeroCopyValue P) (pos : ℕ) (memory : List ℕ)
      → pos < length zc.buffers
      → receive_buffer pos memory zc ≡ (true, after pos memory zc)
  unfolding receive_buffer after
  receive_buffer-there zc pos memory h =
      if_true {b = ltb pos (length zc.buffers)} _ (false, zc) (ground arith)

  slots-after :
      (zc : ZeroCopyValue P) (pos : ℕ) (memory : List ℕ)
      → pos < length (slots zc)
      → slots (after pos memory zc) ≡ set (slots zc) pos (some memory)
  unfolding after
  slots-after zc pos memory h = if_false _ _ (
      null_long (set (slots zc) pos (some memory))
        (omega (arith, length-set (slots zc) pos (some memory))))

  receive_buffer-IsPartial :
      (got : List ℕ) (start zc : ZeroCopyValue P) (pos : ℕ) (memory : List ℕ)
      → IsPartial got start zc
      → get_elem? start.buffers pos ≡ some memory
      → IsPartial (pos ∷ got) start (receive_buffer pos memory zc).1
  unfolding after
  receive_buffer-IsPartial got start zc pos memory h fetched =
      let inside = lt-length_of_get_elem? start.buffers pos memory fetched in
      let there : pos < length zc.buffers = omega (arith, ap length h.same_buffers) in
      let slot : pos < length (slots zc) = omega (arith, h.sized) in
      let filled_slots = slots-after zc pos memory slot in
      let next : IsPartial (pos ∷ got) start (after pos memory zc) = record {
        same_buffers = h.same_buffers;
        same_offset = h.same_offset;
        same_ep = h.same_ep;
        counted = omega (arith, h.counted);
        sized = rw filled_slots (omega (arith, length-set (slots zc) pos (some memory), h.sized));
        filled = λ i b has at. rw filled_slots (elim (Bool-cases (nat_beq i pos)) [
          | inl e ↦
              let at_pos : i ≡ pos = (nat_beq_iff i pos).0 e in
              let same : memory ≡ b = cc in
              rw (at_pos, get_elem?-set_self (slots zc) pos (some memory) slot, same) refl
          | inr e ↦
              let apart : pos ≢ i = λ z. cc ((nat_beq_iff i pos).1 (sym z)) in
              let before : contains i got ≡ true = ground arith in
              rw (get_elem?-set_ne (slots zc) pos i (some memory) apart) (h.filled i b before at)
        ]);
      } in
      rw (receive_buffer-there zc pos memory there) next

  receive_all-IsPartial :
      (arrivals : List (ℕ × List ℕ)) (got : List ℕ) (start zc : ZeroCopyValue P)
      → IsPartial got start zc
      → AreFetched start.buffers arrivals
      → IsPartial (reverse_onto (map (λ a. a.0) arrivals) got) start (receive_all arrivals zc)
  unfolding receive_all reverse_onto
  receive_all-IsPartial [] got start zc h fetched = h
  receive_all-IsPartial ((pos, memory) ∷ arrivals) got start zc h fetched =
      receive_all-IsPartial arrivals (pos ∷ got) start (receive_buffer pos memory zc).1
        (receive_buffer-IsPartial got start zc pos memory h fetched.0) fetched.1

  -- What the slots hold in the end, whichever order the gets complete in.
  module _ (zc : ZeroCopyValue P) (arrivals : List (ℕ × List ℕ)) where
    abbrev positions : List ℕ
    positions = map (λ a. a.0) arrivals

    start-IsPartial : zc.values ≡ [] → zc.n_received ≡ 0 → IsPartial [] zc zc
    start-IsPartial none_yet nothing = record {
      same_buffers = refl;
      same_offset = refl;
      same_ep = refl;
      counted = nothing;
      sized = rw none_yet (length-replicate (length zc.buffers) none);
      filled = λ i b has at. cc;
    }

    pub receive_all-IsComplete :
        zc.values ≡ []
        → zc.n_received ≡ 0
        → 0 < length zc.buffers
        → AreFetched zc.buffers arrivals
        → length arrivals ≡ length zc.buffers
        → ((i : ℕ) → i < length zc.buffers → contains i positions ≡ true)
        → (ready (receive_all arrivals zc) ≡ true)
          × ((receive_all arrivals zc).values ≡ map some zc.buffers)
          × ((receive_all arrivals zc).offset ≡ zc.offset)
          × ((receive_all arrivals zc).ep ≡ zc.ep)
    unfolding ready
    receive_all-IsComplete none_yet nothing long fetched as_many each =
        let zc' = receive_all arrivals zc in
        let h =
          receive_all-IsPartial arrivals [] zc zc (start-IsPartial none_yet nothing) fetched in
        let count : zc'.n_received ≡ length zc.buffers = omega (
          arith,
          h.counted,
          length-reverse_onto positions [],
          length-map (λ a. a.0) arrivals,
          as_many,
        ) in
        let whole : slots zc' ≡ map some zc.buffers =
          all_filled zc.buffers (slots zc') h.sized (λ i b at.
            let inside = lt-length_of_get_elem? zc.buffers i b at in
            let has = each i inside in
            h.filled i b (let split = contains-reverse_onto i positions [] in ground arith) at) in
        (
          ground (arith, ap length h.same_buffers),
          used_slots zc'.values (length zc'.buffers) zc.buffers long whole,
          h.same_offset,
          h.same_ep,
        )
