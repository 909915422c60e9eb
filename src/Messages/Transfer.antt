-- ===== src/Messages/Transfer.antt =====
-- A value is sent as a message and read where it arrives: the composition of to_message, pack,
-- unpack, the constructor of a deliverable and dev2typed.
use hypercomm.Base.{
  List, ◌≢◌, nat_beq, ℕ, suc, ◌+◌, ◌≡◌, refl, ap, ◌∙◌, Bool, true, false, not, ◌&&◌, [], ◌∷◌,
  Option, none, some, arith, ltb, bit_or, bit_and, length, null, nat_beq_iff, is_some,
  if◌then◌else◌, ◌>>=◌, Bool-cases, length-overwrite_at, List-cases, inl, inr, length-append,
  if_true, if_false,
}
use hypercomm.Messages.{
  Message, Runtime, PortCodec, Fits, redn_mask, null_mask, zero_copy_mask, port_size, set_zero_copy,
  set_flag, is_null, is_redn, is_zero_copy, make_message, pack, unpack, buffer_of, write_payload,
}
use hypercomm.Messages.Packing.{
  IsLaid, Arrives, unpack-pack_moved, make_message-IsLaid, write_payload-IsLaid,
  length-make_message, AllocFits, buffer_of-write_payload,
}
use hypercomm.Messages.Deliverables.{
  Endpoint, Deliverable, message, value, no_endpoint, learn_endpoint, of_message, is_demux,
  release_message, release_value,
}
use hypercomm.Messages.Typed.{
  ValueCodec, Buffers, flags_of_type, is_sorted, get_deferred, message_size, payload_of,
  pack_deferrable, repack_to_port, to_message, message_data, is_null_message, is_reduction_message,
  from_message, dev2typed,
}

is_sorted-none : (ids : List ℕ) → is_sorted ids [] ≡ true
unfolding is_sorted
is_sorted-none [] = refl
is_sorted-none (id ∷ ids) = refl

-- The flag of a contribution, and that of the deferred buffers.
joined_flags :
    (contributes plain : Bool)
    → bit_or (if contributes then 2 else 0) (if not plain then bit_or 0 4 else bit_and 0 65531)
      ≡ (if contributes then 2 else 0) + (if plain then 0 else 4)
joined_flags true true = refl
joined_flags true false = refl
joined_flags false true = refl
joined_flags false false = refl

read_flags :
    (contributes plain : Bool) (ref : ℕ)
    → ref ≡ (if contributes then 2 else 0) + (if plain then 0 else 4)
    → (ltb 0 (bit_and ref null_mask) ≡ false)
      × (ltb 0 (bit_and ref redn_mask) ≡ contributes)
      × (ltb 0 (bit_and ref zero_copy_mask) ≡ not plain)
read_flags true true ref e = rw e (refl, refl, refl)
read_flags true false ref e = rw e (refl, refl, refl)
read_flags false true ref e = rw e (refl, refl, refl)
read_flags false false ref e = rw e (refl, refl, refl)

module _ {P V : Type 0} (rt : Runtime) (ports : PortCodec P) (codec : ValueCodec P V)
    (ncpy : Buffers) where
  -- The way of a message to another address.
  unfoldable pub transfer : ℕ → Message P → Option (Message P)
  transfer there m = do packed ← pack rt ports m; unpack rt ports (record packed { addr = there })

  -- The way of a deliverable: a message, and a deliverable again.
  unfoldable pub deliver_across : ℕ → Deliverable P V → Option (Deliverable P V)
  deliver_across there dev = do
    m ← to_message rt ports codec ncpy dev
    m' ← transfer there m
    of_message (some m')

  pub transfer-Arrives :
      (room there : ℕ) (m : Message P)
      → IsLaid rt ports room m
      → Fits rt there (length m.body)
      → (m' : Message P) × (transfer there m ≡ some m') × Arrives rt ports room m m'
  unfolding transfer
  transfer-Arrives room there m h k =
      let (packed, packs, m', unpacks, arrives) = unpack-pack_moved rt ports room there m h k in
      (m', rw (packs, unpacks), arrives)

  relaid :
      (room : ℕ) {m : Message P}
      → IsLaid rt ports room m
      → (ref ep_idx : ℕ) → IsLaid rt ports room (record m { ref = ref; ep_idx = ep_idx })
  relaid room h ref ep_idx = record {
    start = h.start;
    inside = h.inside;
    bounded = h.bounded;
    takes = h.takes;
  }

  -- The message that a value becomes.
  module _ (c : V) (ep : Endpoint P) where
    abbrev made : Message P
    made =
        set_zero_copy (not (null (codec.blocks c)))
          (make_message rt ports (message_size rt ports codec ncpy c) ep.port)

    abbrev pub value_message : Message P
    value_message =
        let m = write_payload rt ports (payload_of rt ports codec ncpy c) made in
        record m { ref = bit_or (flags_of_type rt ports codec) made.ref; ep_idx = ep.idx }

    pub payload-size :
        length (payload_of rt ports codec ncpy c) ≡ message_size rt ports codec ncpy c
    unfolding payload_of message_size
    payload-size = elim (List-cases (codec.blocks c)) [
      | inl e ↦ rw e (omega (arith, codec.wrapped_size c e))
      | inr (b, bs, e) ↦ rw e (
          ground (
            arith,
            ncpy.buffers_size (b ∷ bs),
            length-append (ncpy.put_buffers (b ∷ bs)) (codec.put_wrapped c),
          ))
    ]

    -- The message fits where it is made.
    abbrev pub MadeFits : Type 0
    MadeFits = AllocFits rt ports (message_size rt ports codec ncpy c) ep.port

    made-IsLaid : MadeFits → IsLaid rt ports (port_size rt ports ep.port) made
    unfolding set_zero_copy set_flag
    made-IsLaid fits =
        relaid (port_size rt ports ep.port)
          (make_message-IsLaid rt ports (message_size rt ports codec ncpy c) ep.port fits) _ _

    pub value_message-IsLaid : MadeFits → IsLaid rt ports (port_size rt ports ep.port) value_message
    value_message-IsLaid fits =
        relaid (port_size rt ports ep.port)
          (write_payload-IsLaid rt ports (port_size rt ports ep.port)
            (payload_of rt ports codec ncpy c) made (made-IsLaid fits))
          _ _

    packs :
        get_deferred rt ports codec c ≡ some (codec.blocks c)
        → pack_deferrable rt ports codec ncpy ep.port c
          ≡ some (write_payload rt ports (payload_of rt ports codec ncpy c) made)
    unfolding pack_deferrable
    packs sorted = rw (pack_deferrable, sorted) (if_true _ none ((nat_beq_iff _ _).1 payload-size))

    pub to_message-value :
        get_deferred rt ports codec c ≡ some (codec.blocks c)
        → (is_demux rt ep ≡ true → is_some ep.port ≡ true)
        → (source : Endpoint P)
        → to_message rt ports codec ncpy (record {
          storage = value (
              some (record { flags = flags_of_type rt ports codec; source = source; content = c }));
          ep = ep;
        })
          ≡ some value_message
    unfolding to_message release_value repack_to_port write_payload set_zero_copy set_flag
        make_message
    to_message-value sorted demux source =
        let kept : (is_demux rt ep && not (is_some ep.port)) ≡ false =
          elim (Bool-cases (is_demux rt ep)) [ inl h ↦ rw (h, demux h) | inr h ↦ rw h ] in
        rw (packs sorted, if_false none (some value_message) kept)

  -- What a receiver makes of a message that holds a value.
  module _ (fuel : ℕ) (m : Message P) (c : V) where
    from_message-holds :
        m.is_message ≡ true
        → is_null m ≡ false
        → is_redn m ≡ codec.is_contribution
        → buffer_of rt ports m ≡ codec.put c
        → from_message rt ports codec (suc fuel) (some m)
          ≡ some (
              some (record {
                flags = flags_of_type rt ports codec;
                source = no_endpoint;
                content = c;
              }))
    unfolding from_message is_null_message is_reduction_message message_data
    from_message-holds ours full kind data_is =
        let plain : (not codec.is_contribution && is_redn m) ≡ false = ground arith in
        simp (ours, full, plain, data_is, codec.get-put)

  -- The deliverable takes its endpoint from the message.
  of_message-ours :
      (m : Message P)
      → m.is_message ≡ true
      → of_message {V = V} (some m)
        ≡ some (record {
          storage = message (some (record m { dst = none }));
          ep = record { idx = m.ep_idx; port = m.dst };
        })
  unfolding of_message learn_endpoint
  of_message-ours m ours =
      ap
        (λ b. some (record {
          storage = message (some (if b then record m { dst = none } else m));
          ep = record { idx = m.ep_idx; port = if b then m.dst else none };
        }))
        ours

  dev2typed-holds :
      (fuel : ℕ) (m : Message P) (c : V)
      → m.is_message ≡ true
      → is_null m ≡ false
      → is_redn m ≡ codec.is_contribution
      → buffer_of rt ports m ≡ codec.put c
      → (of_message (some m) >>= dev2typed rt ports codec (suc fuel))
        ≡ some (
            some (record {
              flags = flags_of_type rt ports codec;
              source = record { idx = m.ep_idx; port = m.dst };
              content = c;
            }))
  unfolding dev2typed release_message is_null is_redn buffer_of
  dev2typed-holds fuel m c ours full kind data_is =
      let taken = from_message-holds fuel (record m { dst = none }) c ours full kind data_is in
      rw (of_message-ours m ours, taken)

  -- The flags of the message that a value becomes.
  value_message-ref :
      (c : V) (ep : Endpoint P)
      → (value_message c ep).ref
        ≡ (if codec.is_contribution then 2 else 0) + (if null (codec.blocks c) then 0 else 4)
  unfolding set_zero_copy set_flag make_message flags_of_type
  value_message-ref c ep = joined_flags codec.is_contribution (null (codec.blocks c))

  pub value_message-flags :
      (c : V) (ep : Endpoint P) (m' : Message P)
      → m'.ref ≡ (value_message c ep).ref
      → (is_null m' ≡ false)
        × (is_redn m' ≡ codec.is_contribution)
        × (is_zero_copy m' ≡ not (null (codec.blocks c)))
  unfolding is_null is_redn is_zero_copy
  value_message-flags c ep m' same =
      read_flags codec.is_contribution (null (codec.blocks c)) m'.ref
        (same ∙ value_message-ref c ep)

  length-made :
      (c : V) (ep : Endpoint P)
      → length (made c ep).body
        ≡ port_size rt ports ep.port + length (payload_of rt ports codec ncpy c)
  unfolding set_zero_copy set_flag
  length-made c ep = omega (
    arith,
    length-make_message rt ports (message_size rt ports codec ncpy c) ep.port,
    payload-size c ep,
  )

  pub length-value_message :
      (c : V) (ep : Endpoint P)
      → length (value_message c ep).body
        ≡ port_size rt ports ep.port + length (payload_of rt ports codec ncpy c)
  unfolding write_payload
  length-value_message c ep =
      length-overwrite_at _ (payload_of rt ports codec ncpy c) (made c ep).body ∙ length-made c ep

  pub value_message-kept :
      (c : V) (ep : Endpoint P)
      → ((value_message c ep).is_message ≡ true) × ((value_message c ep).dst ≡ ep.port)
  unfolding write_payload set_zero_copy set_flag make_message
  value_message-kept c ep = (refl, refl)

  pub value_message-buffer :
      (c : V) (ep : Endpoint P)
      → MadeFits c ep
      → buffer_of rt ports (value_message c ep) ≡ payload_of rt ports codec ncpy c
  unfolding buffer_of
  value_message-buffer c ep fits =
      buffer_of-write_payload rt ports (port_size rt ports ep.port)
        (payload_of rt ports codec ncpy c) (made c ep) (made-IsLaid c ep fits) (length-made c ep)

  -- Nothing is out of order where nothing is deferred.
  plain_sorted :
      (c : V) → codec.blocks c ≡ [] → get_deferred rt ports codec c ≡ some (codec.blocks c)
  unfolding get_deferred
  plain_sorted c e =
      let sorted : is_sorted (codec.block_ids c) (codec.blocks c) ≡ true =
        rw e (is_sorted-none (codec.block_ids c)) in
      ground arith

  payload-plain : (c : V) → codec.blocks c ≡ [] → payload_of rt ports codec ncpy c ≡ codec.put c
  unfolding payload_of
  payload-plain c e = rw e

  -- A value that defers nothing, with a port if its endpoint is the demultiplexer's, where its message
  -- fits into both memories: it becomes a message, no assertion fails, and where the message arrives
  -- it is read as the same value, whose source is the endpoint that it was sent to.
  pub dev2typed-deliver_across :
      (there fuel : ℕ) (c : V) (ep source : Endpoint P)
      → codec.blocks c ≡ []
      → (is_demux rt ep ≡ true → is_some ep.port ≡ true)
      → MadeFits c ep
      → Fits rt there (port_size rt ports ep.port + length (codec.put c))
      → (deliver_across there (record {
        storage =
            value (
              some (record { flags = flags_of_type rt ports codec; source = source; content = c }));
        ep = ep;
      })
          >>= dev2typed rt ports codec (suc fuel))
        ≡ some (some (record { flags = flags_of_type rt ports codec; source = ep; content = c }))
  unfolding deliver_across
  dev2typed-deliver_across there fuel c ep source none_deferred demux fits bound =
      let m = value_message c ep in
      let room = port_size rt ports ep.port in
      let bytes = payload-plain c none_deferred in
      let far : Fits rt there (length m.body) =
        omega (arith, length-value_message c ep, ap length bytes, bound) in
      let (m', moves, arrives) =
        transfer-Arrives room there m (value_message-IsLaid c ep fits) far in
      let (full, kind, _) = value_message-flags c ep m' arrives.same_ref in
      let ours : m'.is_message ≡ true = arrives.same_kind ∙ (value_message-kept c ep).0 in
      let to_port = arrives.to_dst ∙ (value_message-kept c ep).1 in
      let held = arrives.same_buffer ∙ value_message-buffer c ep fits ∙ bytes in
      rw (to_message-value c ep (plain_sorted c none_deferred) demux source, moves)
        (dev2typed-holds fuel m' c ours full kind held ∙ rw (to_port, arrives.same_ep) refl)

  -- Where errors are checked, a value that defers at least two blocks, of which the second does not
  -- have the size of the first as its identifier, cannot be sent: an assertion fails.
  pub to_message-blocks_abort :
      (c : V) (ep source : Endpoint P) (id next : ℕ) (ids b d : List ℕ) (bs : List (List ℕ))
      → rt.error_checking ≡ true
      → codec.blocks c ≡ b ∷ d ∷ bs
      → codec.block_ids c ≡ id ∷ next ∷ ids
      → next ≢ length b
      → to_message rt ports codec ncpy (record {
        storage =
            value (
              some (record { flags = flags_of_type rt ports codec; source = source; content = c }));
        ep = ep;
      })
        ≡ none
  unfolding to_message release_value repack_to_port pack_deferrable get_deferred is_sorted
  to_message-blocks_abort c ep source id next ids b d bs checks blocks named differ =
      let apart : nat_beq next (length b) ≡ false = ground (arith, nat_beq_iff next (length b)) in
      simp (checks, blocks, named, apart)
