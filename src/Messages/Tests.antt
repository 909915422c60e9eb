-- ===== src/Messages/Tests.antt =====
-- Ports are numbers; one type of value defers nothing, and another is a list of deferred blocks.
use hypercomm.Base.{
  ℕ, zero, suc, ◌+◌, ◌≡◌, refl, ap, ◌∙◌, true, false, contains, List, [], ◌∷◌, ◌++◌, map, Option,
  none, some, arith, length, sum, replicate, length-replicate, length-append, append_assoc,
  append-nil, sym, ◌<◌, nat_eq, ◌>>=◌,
}
use hypercomm.Messages.{
  Message, PortCodec, Runtime, pack, unpack, make_message, port_size, real_size,
}
use hypercomm.Messages.Packing.{make_message-IsLaid, Arrives, unpack-pack_moved}
use hypercomm.Messages.Deliverables.{Endpoint, value, no_endpoint, of_deferred, ZeroCopyValue}
use hypercomm.Messages.Typed.{
  ValueCodec, Buffers, to_message, message_size, get_deferred, payload_of, flags_of_type, dev2typed,
}
use hypercomm.Messages.Transfer.{deliver_across, dev2typed-deliver_across, to_message-blocks_abort}
use hypercomm.Messages.Wire.{Enveloped, has_valid_endpoint, cross, at_end, cross-Arrives}
use hypercomm.Messages.Receive.{open_across, dev2typed-open_across}
use hypercomm.Messages.Fetched.{receive_all}

abbrev machine : Runtime
machine = record {
  hdr_size = 16;
  alloc_addr = λ n. 4096;
  alloc_bytes = λ n. replicate n 7;
  demux = 5;
  registered = true;
  error_checking = false;
  alloc_length = λ n. length-replicate n 7;
}

get_port : List ℕ → Option (ℕ × List ℕ)
get_port (_ ∷ p ∷ rest) = some (p, rest)
get_port _ = none

abbrev ports : PortCodec ℕ
unfolding get_port
ports = record {
  put = λ p. 4 ∷ p ∷ [];
  get = get_port;
  get-put = λ p rest. refl;
  put_kind = λ p. (4, p ∷ [], refl, λ e. omega (arith, e));
}

-- A buffer is written as its length and its contents, behind a count of eight bytes.
put_blocks : List (List ℕ) → List ℕ
put_blocks [] = []
put_blocks (b ∷ bs) = length b ∷ b ++ put_blocks bs

take_n : ℕ → List ℕ → Option (List ℕ × List ℕ)
take_n zero bytes = some ([], bytes)
take_n (suc n) [] = none
take_n (suc n) (b ∷ bytes) = take_n n bytes >>= λ (front, rest). some (b ∷ front, rest)

get_blocks : ℕ → List ℕ → Option (List (List ℕ) × List ℕ)
get_blocks zero bytes = some ([], bytes)
get_blocks (suc n) [] = none
get_blocks (suc n) (k ∷ bytes) = do
  (b, more) ← take_n k bytes
  (bs, rest) ← get_blocks n more
  some (b ∷ bs, rest)

take_n-append : (b rest : List ℕ) → take_n (length b) (b ++ rest) ≡ some (b, rest)
unfolding take_n
take_n-append [] rest = refl
take_n-append (x ∷ b) rest = rw (take_n-append b rest) refl

get_blocks-put :
    (bs : List (List ℕ)) (rest : List ℕ)
    → get_blocks (length bs) (put_blocks bs ++ rest) ≡ some (bs, rest)
unfolding get_blocks put_blocks
get_blocks-put [] rest = refl
get_blocks-put (b ∷ bs) rest =
    rw
      (
        append_assoc b (put_blocks bs) rest,
        take_n-append b (put_blocks bs ++ rest),
        get_blocks-put bs rest,
      )
      refl

length-put_blocks : (bs : List (List ℕ)) → length (put_blocks bs) ≡ sum (map (λ b. 1 + length b) bs)
unfolding put_blocks
length-put_blocks [] = refl
length-put_blocks (b ∷ bs) = omega (arith, length-append b (put_blocks bs), length-put_blocks bs)

get_counted : List ℕ → Option (List (List ℕ) × List ℕ)
get_counted (n ∷ _ ∷ _ ∷ _ ∷ _ ∷ _ ∷ _ ∷ _ ∷ bytes) = get_blocks n bytes
get_counted _ = none

abbrev rdma : Buffers
unfolding get_counted
rdma = record {
  put_buffers = λ bs. length bs ∷ 0 ∷ 0 ∷ 0 ∷ 0 ∷ 0 ∷ 0 ∷ 0 ∷ put_blocks bs;
  get_buffers = get_counted;
  size_of = λ b. 1 + length b;
  get-put_buffers = get_blocks-put;
  buffers_size = λ bs. omega (arith, length-put_blocks bs);
}

get_number : List ℕ → Option ℕ
get_number (n ∷ _) = some n
get_number [] = none

-- A number, whose encapsulation takes two more bytes.
abbrev numbers : ValueCodec ℕ ℕ
unfolding get_number
numbers = record {
  put = λ n. n ∷ [];
  get = get_number;
  put_wrapped = λ n. n ∷ 0 ∷ 0 ∷ [];
  blocks = λ n. [];
  block_ids = λ n. [];
  get_wrapped = λ bytes memory. get_number bytes;
  wraps = true;
  instance_size = 2;
  is_contribution = false;
  get_inner = λ bytes. none;
  get-put = λ n. refl;
  get-put_wrapped = λ n. refl;
  wrapped_size = λ n h. refl;
}

-- An endpoint with a port: 40, at the demultiplexer.
abbrev port_40 : Endpoint ℕ
port_40 = record { idx = 5; port = some 40 }

dev2typed-deliver_across_example :
    (deliver_across machine ports numbers rdma 9000 (record {
      storage = value (some (record { flags = 0; source = no_endpoint; content = 17 }));
      ep = port_40;
    })
      >>= dev2typed machine ports numbers 1)
    ≡ some (some (record { flags = 0; source = port_40; content = 17 }))
unfolding numbers ports port_size real_size message_size flags_of_type
dev2typed-deliver_across_example =
    dev2typed-deliver_across machine ports numbers rdma 9000 0 17 port_40 no_endpoint refl
      (λ _. refl) (omega arith) (omega arith)

count_up : ℕ → ℕ → List ℕ
count_up id zero = []
count_up id (suc n) = id ∷ count_up (suc id) n

-- Two blocks, fetched in the order opposite to theirs.
gather : List (Option (List ℕ)) → Option (List (List ℕ))
gather [] = some []
gather (none ∷ slots) = none
gather (some b ∷ slots) = gather slots >>= λ bs. some (b ∷ bs)

gather-map : (bs : List (List ℕ)) → gather (map some bs) ≡ some bs
unfolding gather
gather-map [] = refl
gather-map (b ∷ bs) = rw (gather-map bs) refl

get_blocks-whole :
    (bs : List (List ℕ))
    → (get_counted (length bs ∷ 0 ∷ 0 ∷ 0 ∷ 0 ∷ 0 ∷ 0 ∷ 0 ∷ put_blocks bs) >>= λ (found, rest).
        some found)
      ≡ some bs
unfolding get_counted
get_blocks-whole bs =
    let read : get_blocks (length bs) (put_blocks bs) ≡ some (bs, []) =
      ap (get_blocks (length bs)) (sym (append-nil (put_blocks bs))) ∙ get_blocks-put bs [] in
    rw read refl

abbrev block_list : ValueCodec ℕ (List (List ℕ))
unfolding gather get_counted
block_list = record {
  put = λ bs. length bs ∷ 0 ∷ 0 ∷ 0 ∷ 0 ∷ 0 ∷ 0 ∷ 0 ∷ put_blocks bs;
  get = λ bytes. get_counted bytes >>= λ (bs, rest). some bs;
  put_wrapped = λ bs. length bs ∷ 0 ∷ 0 ∷ 0 ∷ 0 ∷ 0 ∷ 0 ∷ 0 ∷ put_blocks bs;
  blocks = λ bs. bs;
  block_ids = λ bs. count_up 1 (length bs);
  get_wrapped = λ bytes memory. gather memory;
  wraps = false;
  instance_size = 2;
  is_contribution = false;
  get_inner = λ bytes. none;
  get-put = get_blocks-whole;
  get-put_wrapped = gather-map;
  wrapped_size = λ bs h. omega arith;
}

below_two : (i : ℕ) → i < 2 → contains i (1 ∷ 0 ∷ []) ≡ true
below_two zero h = refl
below_two (suc zero) h = refl
below_two (suc (suc i)) h = absurd (omega arith)

abbrev two_blocks : List (List ℕ)
two_blocks = (1 ∷ 2 ∷ []) ∷ (3 ∷ []) ∷ []

dev2typed-open_across_example :
    (zc : ZeroCopyValue ℕ) × (open_across machine ports block_list rdma 9000 (record {
      storage = value (some (record { flags = 0; source = no_endpoint; content = two_blocks }));
      ep = port_40;
    })
      ≡ some zc)
    × ((of_deferred (some (receive_all ((1, 3 ∷ []) ∷ (0, 1 ∷ 2 ∷ []) ∷ []) zc))
          >>= dev2typed machine ports block_list 0)
        ≡ some (some (record { flags = 0; source = no_endpoint; content = two_blocks })))
unfolding get_deferred block_list rdma ports put_blocks port_size real_size message_size payload_of
    flags_of_type
dev2typed-open_across_example =
    dev2typed-open_across machine ports block_list rdma 9000 0 two_blocks port_40 no_endpoint
      ((1, 3 ∷ []) ∷ (0, 1 ∷ 2 ∷ []) ∷ []) (omega arith) refl (λ _. refl) (omega arith)
      (omega arith) (refl, (refl, tt)) refl below_two

-- A message for port 40, its reference number set, is moved to the address 9000.
abbrev to_40 : Message ℕ
to_40 = make_message machine ports 3 (some 40)

unpack-pack_moved_example :
    (packed : Message ℕ) × (pack machine ports to_40 ≡ some packed)
    × (m' : Message ℕ) × (unpack machine ports (record packed { addr = 9000 }) ≡ some m')
    × Arrives machine ports 48 to_40 m'
unfolding ports port_size real_size make_message
unpack-pack_moved_example =
    unpack-pack_moved machine ports 48 9000 to_40
      (make_message-IsLaid machine ports 3 (some 40) (omega arith)) (omega arith)

-- The same machine where errors are checked.
abbrev uneven_blocks : List (List ℕ)
uneven_blocks = (1 ∷ 2 ∷ 3 ∷ []) ∷ (3 ∷ []) ∷ []

to_message-blocks_abort_example :
    to_message
      (record machine { error_checking = true })
      ports
      block_list
      rdma
      (record {
        storage =
            value (some (record { flags = 0; source = no_endpoint; content = uneven_blocks }));
        ep = port_40;
      })
    ≡ none
unfolding block_list flags_of_type count_up
to_message-blocks_abort_example =
    to_message-blocks_abort (record machine { error_checking = true }) ports block_list rdma
      uneven_blocks port_40 no_endpoint 1 2 [] (1 ∷ 2 ∷ 3 ∷ []) (3 ∷ []) [] refl refl refl
      (λ e. omega (arith, e))

-- The message as it is sent, with its size in bytes.
abbrev letter_to_40 : Enveloped ℕ
letter_to_40 = record { total_size = 115; is_packed = false; msg = to_40 }

cross-Arrives_example :
    (em' : Enveloped ℕ) × (cross machine ports 9000 2 false letter_to_40
      ≡ some (at_end machine ports false em'))
    × Arrives machine ports 48 to_40 em'.msg
    × (em'.total_size ≡ 115)
    × (em'.is_packed ≡ false)
unfolding ports port_size real_size make_message has_valid_endpoint
cross-Arrives_example =
    cross-Arrives machine ports 9000 2 48 false letter_to_40 refl refl
      (make_message-IsLaid machine ports 3 (some 40) (omega arith)) (omega arith)
