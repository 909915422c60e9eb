-- ===== src/Messages/Typed.antt =====
-- Values become messages and messages become values: src/hypercomm/messaging/interceptor.cc
-- (pack_deferrable_, repack_to_port, to_message) and include/hypercomm/core/typed_value.hpp
-- (from_message, to_typed, dev2typed). How a type is packed is the record `ValueCodec`, the buffers
-- of the runtime are the record `Buffers`. An abort, or a failed assertion, is `none`, a null value
-- is `some none`.
use hypercomm.Base.{
  true, ◌∷◌, ℕ, zero, suc, ◌+◌, ◌-◌, ◌≡◌, Bool, not, ◌&&◌, List, [], ◌++◌, map, Option, none, some,
  bit_or, length, sum, null, nat_beq, is_some, if◌then◌else◌, ◌>>=◌,
}
use hypercomm.Messages.{
  Message, Runtime, PortCodec, redn_mask, is_null, is_redn, set_zero_copy, make_message,
  make_null_message, buffer_of, write_payload,
}
use hypercomm.Messages.Deliverables.{
  Endpoint, Value, ZeroCopyValue, Deliverable, invalid, message, value, deferred, no_endpoint,
  export_to, is_demux, ready, release_message, release_value, release_deferred,
}

-- `pup_buffer` of a type, without and with encapsulation, and the blocks of memory that it defers.
pub record ValueCodec (P V : Type 0) : Type 0 where
  pub put : V → List ℕ
  pub get : List ℕ → Option V
  pub put_wrapped : V → List ℕ
  pub blocks : V → List (List ℕ)
  pub block_ids : V → List ℕ
  pub get_wrapped : List ℕ → List (Option (List ℕ)) → Option V
  pub wraps : Bool
  pub instance_size : ℕ
  pub is_contribution : Bool
  pub get_inner : List ℕ → Option (Option (Message P))
  pub get-put : (v : V) → get (put v) ≡ some v
  pub get-put_wrapped : (v : V) → get_wrapped (put_wrapped v) (map some (blocks v)) ≡ some v
  pub wrapped_size :
      (v : V)
      → blocks v ≡ []
      → length (put_wrapped v) ≡ length (put v) + (if wraps then instance_size else 0)

-- `CkNcpyBuffer`, as PUP writes a vector of them: its size, and those of the buffers.
pub record Buffers : Type 0 where
  pub put_buffers : List (List ℕ) → List ℕ
  pub get_buffers : List ℕ → Option (List (List ℕ) × List ℕ)
  pub size_of : List ℕ → ℕ
  pub get-put_buffers :
      (bs : List (List ℕ)) (rest : List ℕ) → get_buffers (put_buffers bs ++ rest) ≡ some (bs, rest)
  pub buffers_size : (bs : List (List ℕ)) → length (put_buffers bs) ≡ 8 + sum (map size_of bs)

-- The test of `get_deferred` (include/hypercomm/serialization/serdes.hpp): its comparator is the
-- difference of the later identifier and the earlier size, so it orders two blocks only if these agree.
unfoldable pub is_sorted : List ℕ → List (List ℕ) → Bool
is_sorted [] blocks = true
is_sorted (id ∷ ids) [] = true
is_sorted (id ∷ []) (b ∷ blocks) = true
is_sorted (id ∷ next ∷ ids) (b ∷ []) = true
is_sorted (id ∷ next ∷ ids) (b ∷ c ∷ blocks) =
    nat_beq next (length b) && is_sorted (next ∷ ids) (c ∷ blocks)

module _ {P V : Type 0} (rt : Runtime) (ports : PortCodec P) (codec : ValueCodec P V) where
  -- `typed_value<T>::flags`.
  unfoldable pub flags_of_type : ℕ
  flags_of_type = if codec.is_contribution then redn_mask else 0

  -- `get_deferred`, whose assertion is made where errors are checked.
  unfoldable pub get_deferred : V → Option (List (List ℕ))
  get_deferred v =
      if rt.error_checking && not (is_sorted (codec.block_ids v) (codec.blocks v))
      then none
      else some (codec.blocks v)

  module _ (ncpy : Buffers) where
    -- The size that `pack_deferrable_` asks for, and the payload that it writes.
    unfoldable pub message_size : V → ℕ
    message_size v =
        if null (codec.blocks v)
        then (length (codec.put_wrapped v) - (if codec.wraps then codec.instance_size else 0))
        else 8 + length (codec.put_wrapped v) + sum (map ncpy.size_of (codec.blocks v))

    unfoldable pub payload_of : V → List ℕ
    payload_of v =
        if null (codec.blocks v)
        then codec.put v
        else ncpy.put_buffers (codec.blocks v) ++ codec.put_wrapped v

    -- `pack_deferrable_`.
    unfoldable pub pack_deferrable : Option P → V → Option (Message P)
    pack_deferrable port v = do
      memory ← get_deferred v
      let m = set_zero_copy (not (null memory)) (make_message rt ports (message_size v) port) in
          if nat_beq (length (payload_of v)) (message_size v)
          then some (write_payload rt ports (payload_of v) m)
          else none

    -- `repack_to_port`.
    unfoldable pub repack_to_port : Option P → Option (Value P V) → Option (Message P)
    repack_to_port port none = some (make_null_message rt ports port)
    repack_to_port port (some v) =
        pack_deferrable port v.content >>= λ m. some (record m { ref = bit_or v.flags m.ref })

    -- `to_message`.
    unfoldable pub to_message : Deliverable P V → Option (Message P)
    to_message dev = elim dev.storage [
      | message m ↦ release_message dev >>= λ (msg, rest). some (export_to rest.ep msg)
      | value v ↦ release_value dev >>= λ (val, rest). repack_to_port rest.ep.port val >>= λ msg.
          let addressed = record msg { ep_idx = rest.ep.idx } in
          if is_demux rt rest.ep && not (is_some addressed.dst) then none else some addressed
      | _ ↦ none
    ]

  -- The data of a message; that of the runtime's own messages follows their header.
  unfoldable pub message_data : Message P → List ℕ
  message_data m = if m.is_message then buffer_of rt ports m else m.body

  -- `is_null_message` and `is_reduction_message`.
  unfoldable pub is_null_message : Message P → Bool
  is_null_message m = m.is_message && is_null m

  unfoldable pub is_reduction_message : Message P → Bool
  is_reduction_message m = m.is_message && is_redn m

  -- `from_message`; the result of a reduction holds a message, and the fuel bounds their nesting.
  unfoldable pub from_message : ℕ → Option (Message P) → Option (Option (Value P V))
  from_message fuel none = some none
  from_message zero (some m) = none
  from_message (suc fuel) (some m) =
      if is_null_message m
      then some none
      else if not codec.is_contribution && is_reduction_message m
      then codec.get_inner (message_data m) >>= from_message fuel
      else (do
        v ← codec.get (message_data m)
        some (some (record { flags = flags_of_type; source = no_endpoint; content = v })))

  -- `to_typed`; `release` leaves nothing behind.
  unfoldable pub to_typed : ZeroCopyValue P → Option (Option (Value P V))
  to_typed zc = do
    v ← codec.get_wrapped zc.offset zc.values
    some (some (record { flags = flags_of_type; source = no_endpoint; content = v }))

  abbrev pub with_source : Endpoint P → Option (Value P V) → Option (Value P V)
  with_source ep none = none
  with_source ep (some v) = some (record v { source = ep })

  -- `dev2typed`.
  unfoldable pub dev2typed : ℕ → Deliverable P V → Option (Option (Value P V))
  dev2typed fuel dev = elim dev.storage [
    | deferred zc ↦ release_deferred dev >>= λ (z, rest). if ready z then to_typed z else none
    | message m ↦ release_message dev >>= λ (msg, rest).
        from_message fuel (some msg) >>= λ typed. some (with_source rest.ep typed)
    | value v ↦ release_value dev >>= λ (val, rest). some (with_source rest.ep val)
    | invalid ↦ none
  ]
