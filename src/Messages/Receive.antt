-- ===== src/Messages/Receive.antt =====
-- The receiver's part for a value with deferred blocks: receive_value (src/hypercomm/core/locality.cc)
-- reads the buffers, and the value is made when all of them have been received.
use hypercomm.Base.{
  ℕ, ◌+◌, ◌<◌, ◌≡◌, refl, ap, ◌∙◌, true, false, not, List, [], ◌++◌, map, Option, none, some, arith,
  length, null, is_some, contains, nat_eq, if◌then◌else◌, ◌>>=◌, if_false,
}
use hypercomm.Messages.{Message, Runtime, PortCodec, Fits, buffer_of, port_size, is_zero_copy}
use hypercomm.Messages.Deliverables.{
  Endpoint, ZeroCopyValue, Deliverable, deferred, value, is_demux, learn_endpoint, ready,
  of_deferred, no_endpoint, release_deferred,
}
use hypercomm.Messages.Typed.{
  ValueCodec, Buffers, flags_of_type, get_deferred, payload_of, to_message, to_typed, dev2typed,
}
use hypercomm.Messages.Transfer.{
  MadeFits, transfer, transfer-Arrives, value_message, value_message-IsLaid, value_message-flags,
  value_message-buffer, length-value_message, to_message-value,
}
use hypercomm.Messages.Fetched.{
  receive_all, open_value, AreFetched, receive_all-IsComplete, null_long,
}

module _ {P V : Type 0} (rt : Runtime) (ports : PortCodec P) (codec : ValueCodec P V)
    (ncpy : Buffers) where
  open_value-holds :
      (m : Message P) (c : V)
      → buffer_of rt ports m ≡ ncpy.put_buffers (codec.blocks c) ++ codec.put_wrapped c
      → open_value rt ports ncpy m
        ≡ some (record {
          buffers = codec.blocks c;
          values = [];
          n_received = 0;
          ep = (learn_endpoint m).0;
          msg = (learn_endpoint m).1;
          offset = codec.put_wrapped c;
        })
  unfolding open_value
  open_value-holds m c held =
      rw (open_value, held, ncpy.get-put_buffers (codec.blocks c) (codec.put_wrapped c)) refl

  dev2typed_complete :
      (fuel : ℕ) (zc : ZeroCopyValue P) (ep : Endpoint P) (c : V)
      → ready zc ≡ true
      → zc.offset ≡ codec.put_wrapped c
      → zc.values ≡ map some (codec.blocks c)
      → dev2typed rt ports codec fuel (record { storage = deferred (some zc); ep = ep })
        ≡ some (
            some
              (record { flags = flags_of_type rt ports codec; source = no_endpoint; content = c }))
  unfolding dev2typed release_deferred to_typed
  dev2typed_complete fuel zc ep c whole offset values =
      simp (whole, offset, values, codec.get-put_wrapped)

  -- The way of a value to the request of its blocks.
  unfoldable pub open_across : ℕ → Deliverable P V → Option (ZeroCopyValue P)
  open_across there dev = do
    m ← to_message rt ports codec ncpy dev
    m' ← transfer rt ports codec ncpy there m
    if is_zero_copy m' then open_value rt ports ncpy m' else none

  payload-deferred :
      (c : V)
      → 0 < length (codec.blocks c)
      → (null (codec.blocks c) ≡ false)
        × (payload_of rt ports codec ncpy c
            ≡ ncpy.put_buffers (codec.blocks c) ++ codec.put_wrapped c)
  unfolding payload_of
  payload-deferred c h = let long = null_long (codec.blocks c) h in (long, if_false _ _ long)

  -- A value that defers at least one block and whose blocks pass the test of their order, with a port if its endpoint is the demultiplexer's, where
  -- its message fits into both memories: it becomes a zero-copy message, which is opened where it
  -- arrives. When each of its blocks has been fetched and there was one arrival per block, in any
  -- order, the deliverable of what was received is read as the same value.
  pub dev2typed-open_across :
      (there fuel : ℕ) (c : V) (ep source : Endpoint P) (arrivals : List (ℕ × List ℕ))
      → 0 < length (codec.blocks c)
      → get_deferred rt ports codec c ≡ some (codec.blocks c)
      → (is_demux rt ep ≡ true → is_some ep.port ≡ true)
      → MadeFits rt ports codec ncpy c ep
      → Fits rt there (port_size rt ports ep.port + length (payload_of rt ports codec ncpy c))
      → AreFetched (codec.blocks c) arrivals
      → length arrivals ≡ length (codec.blocks c)
      → ((i : ℕ) → i < length (codec.blocks c) → contains i (map (λ a. a.0) arrivals) ≡ true)
      → (zc : ZeroCopyValue P) × (open_across there (record {
        storage =
            value (
              some (record { flags = flags_of_type rt ports codec; source = source; content = c }));
        ep = ep;
      })
          ≡ some zc)
        × ((of_deferred (some (receive_all arrivals zc)) >>= dev2typed rt ports codec fuel)
            ≡ some (
                some (record {
                  flags = flags_of_type rt ports codec;
                  source = no_endpoint;
                  content = c;
                })))
  unfolding open_across of_deferred ready
  dev2typed-open_across there fuel c ep source arrivals long sorted demux fits bound fetched as_many
        each =
      let m = value_message rt ports codec ncpy c ep in
      let room = port_size rt ports ep.port in
      let (many, bytes) = payload-deferred c long in
      let far : Fits rt there (length m.body) =
        omega (arith, length-value_message rt ports codec ncpy c ep, bound) in
      let (m', moves, arrives) =
        transfer-Arrives rt ports codec ncpy room there m
          (value_message-IsLaid rt ports codec ncpy c ep fits) far in
      let flags = value_message-flags rt ports codec ncpy c ep m' arrives.same_ref in
      let deferring : is_zero_copy m' ≡ true = flags.2 ∙ ap not many in
      let held = arrives.same_buffer ∙ value_message-buffer rt ports codec ncpy c ep fits ∙ bytes in
      let zc : ZeroCopyValue P = record {
        buffers = codec.blocks c;
        values = [];
        n_received = 0;
        ep = (learn_endpoint m').0;
        msg = (learn_endpoint m').1;
        offset = codec.put_wrapped c;
      } in
      let (whole, values, offset, _) =
        receive_all-IsComplete zc arrivals refl refl long fetched as_many each in
      (
        zc,
        rw (to_message-value rt ports codec ncpy c ep sorted demux source, moves, deferring)
            (open_value-holds m' c held),
        dev2typed_complete fuel _ _ c whole offset values,
      )
