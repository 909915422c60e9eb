-- ===== src/Messages/Packing.antt =====
-- A message is packed where it was made and unpacked where it arrives
-- (src/hypercomm/messaging/messaging.cc).
use hypercomm.Base.{
  ℕ, ◌+◌, ◌-◌, ◌%◌, ◌^◌, ◌<◌, ◌≤◌, ◌≡◌, ◌↔◌, refl, sym, ap, ◌∙◌, true, false, List, [], ◌∷◌, ◌++◌,
  Option, none, some, arith, leb, length, nat_beq, nat_beq_iff, drop, overwrite, overwrite-append,
  length-overwrite, length-append, drop-overwrite, drop-overwrite_at, length-overwrite_at,
  length-drop,
}
use hypercomm.Messages.{
  Message, Runtime, PortCodec, Fits, ignored, sub_word, real_size, port_size, make_message, pack,
  unpack, read_dst, buffer_of, write_payload, pack_to_port,
}

-- The distance of two addresses.
pub sub_word-add : (a d : ℕ) → a + d < 2 ^ 64 → sub_word (a + d) a ≡ d
unfolding sub_word
sub_word-add a d h = omega arith

-- The room, as `pack` and `get_message_buffer` compute it.
available :
    (addr hdr room : ℕ) {payload : ℕ}
    → payload ≡ addr + hdr + room
    → addr + hdr + room < 2 ^ 64
    → sub_word (sub_word payload addr) hdr ≡ room
available addr hdr room {payload} e h =
    let whole : payload ≡ addr + (hdr + room) = omega (arith, e) in
    rw (whole, sub_word-add addr (hdr + room) (omega arith), sub_word-add hdr room (omega arith))

overwrite_whole : (xs old : List ℕ) → length xs ≡ length old → overwrite xs old ≡ xs
overwrite_whole [] [] h = refl
overwrite_whole [] (_ ∷ old) h = absurd (omega arith)
overwrite_whole (x ∷ xs) [] h = absurd (omega arith)
overwrite_whole (x ∷ xs) (_ ∷ old) h = ap (λ zs. x ∷ zs) (overwrite_whole xs old (omega arith))

module _ {P : Type 0} (rt : Runtime) (ports : PortCodec P) where
  -- The payload starts behind the header and the room, which takes the destination; no address
  -- overflows.
  pub record IsLaid (room : ℕ) (m : Message P) : Type 0 where
    pub start : m.payload ≡ m.addr + rt.hdr_size + room
    pub inside : room ≤ length m.body
    pub bounded : m.addr + rt.hdr_size + length m.body < 2 ^ 64
    pub takes : real_size rt ports m.dst ≤ room

  module _ (room : ℕ) (m : Message P) (h : IsLaid room m) where
    offset : sub_word m.payload m.addr ≡ rt.hdr_size + room
    offset =
        let whole : m.payload ≡ m.addr + (rt.hdr_size + room) = omega (arith, h.start) in
        rw (whole, sub_word-add m.addr (rt.hdr_size + room) (omega (arith, h.bounded, h.inside)))

    avail : sub_word (sub_word m.payload m.addr) rt.hdr_size ≡ room
    avail = rw (offset, sub_word-add rt.hdr_size room (omega (arith, h.bounded, h.inside)))

    pub buffer_of-IsLaid : buffer_of rt ports m ≡ drop room m.body
    unfolding buffer_of
    buffer_of-IsLaid = rw avail

    pack-IsLaid :
        pack rt ports m
        ≡ some (record m {
          payload = rt.hdr_size + room;
          body = overwrite (elim m.dst [ none ↦ ignored ∷ [] | some p ↦ ports.put p ]) m.body;
        })
    unfolding pack
    pack-IsLaid =
        let fits : leb (real_size rt ports m.dst) room ≡ true = ground (arith, h.takes) in
        rw (avail, offset, fits)

  read_dst-null :
      (expected : ℕ) (rest : List ℕ) → read_dst rt ports expected (ignored ∷ rest) ≡ some none
  unfolding read_dst
  read_dst-null expected rest = refl

  read_dst-port :
      (expected : ℕ) (p : P) (rest : List ℕ)
      → length (ports.put p) ≤ expected
      → read_dst rt ports expected (ports.put p ++ rest) ≡ some (some p)
  unfolding read_dst
  read_dst-port expected p rest h =
      let (kind, bytes, same, other) = ports.put_kind p in
      let differs : nat_beq kind ignored ≡ false = ground (arith, nat_beq_iff kind ignored) in
      let gets : ports.get (kind ∷ bytes ++ rest) ≡ some (p, rest) =
        ap (λ written. ports.get (written ++ rest)) (sym same) ∙ ports.get-put p rest in
      let fits : leb (length (kind ∷ bytes ++ rest) - length rest) expected ≡ true =
        ground (arith, length-append bytes rest, ap length same, h) in
      rw (same, differs, gets, fits)

  -- What is packed is read back, from memory that has room for it.
  read_dst-written :
      (room : ℕ) (dst : Option P) (body : List ℕ)
      → real_size rt ports dst ≤ room
      → room ≤ length body
      → read_dst rt ports room
          (overwrite (elim dst [ none ↦ ignored ∷ [] | some p ↦ ports.put p ]) body)
        ≡ some dst
  unfolding real_size
  read_dst-written room none [] h k = absurd (omega arith)
  read_dst-written room none (_ ∷ body) h k = read_dst-null room body
  read_dst-written room (some p) body h k =
      rw (overwrite-append (ports.put p) body (omega arith), read_dst-port room p _ h)

-- What a message keeps on its way: its destination, payload and envelope.
pub record Arrives {P : Type 0} (rt : Runtime) (ports : PortCodec P) (room : ℕ) (m m' : Message P)
    : Type 0 where
  pub to_dst : m'.dst ≡ m.dst
  pub same_buffer : buffer_of rt ports m' ≡ buffer_of rt ports m
  pub same_ref : m'.ref ≡ m.ref
  pub same_ep : m'.ep_idx ≡ m.ep_idx
  pub same_kind : m'.is_message ≡ m.is_message
  pub laid : IsLaid rt ports room m'

module _ {P : Type 0} (rt : Runtime) (ports : PortCodec P) where
  -- What `pack` writes behind the header, the message that is sent, and the one that arrives.
  abbrev written : Option P → List ℕ
  written dst = elim dst [ none ↦ ignored ∷ [] | some p ↦ ports.put p ]

  abbrev sent : ℕ → Message P → Message P
  sent room m = record m { payload = rt.hdr_size + room; body = overwrite (written m.dst) m.body }

  abbrev received : ℕ → ℕ → Message P → Message P
  received room there m = record m {
    addr = there;
    payload = (rt.hdr_size + room + there) % 2 ^ 64;
    body = overwrite (written m.dst) m.body;
  }

  written-le :
      (dst : Option P) (room : ℕ) → real_size rt ports dst ≤ room → length (written dst) ≤ room
  unfolding real_size
  written-le none room h = h
  written-le (some p) room h = h

  unpack-sent :
      (room there : ℕ) (m : Message P)
      → IsLaid rt ports room m
      → unpack rt ports (record (sent room m) { addr = there }) ≡ some (received room there m)
  unfolding unpack
  unpack-sent room there m h = rw (
    unpack,
    sub_word-add rt.hdr_size room (omega (arith, h.bounded, h.inside)),
    read_dst-written rt ports room m.dst m.body h.takes h.inside,
  )

  -- A message whose destination fits into its room is packed without an abort, and unpacked at
  -- another address without a failed assertion.
  pub unpack-pack_moved :
      (room there : ℕ) (m : Message P)
      → IsLaid rt ports room m
      → Fits rt there (length m.body)
      → (packed : Message P) × (pack rt ports m ≡ some packed)
        × (m' : Message P) × (unpack rt ports (record packed { addr = there }) ≡ some m')
        × Arrives rt ports room m m'
  unpack-pack_moved room there m h k =
      let m' = received room there m in
      let at : m'.payload ≡ there + rt.hdr_size + room = omega (arith, h.inside, k) in
      let inside : room ≤ length m'.body =
        omega (arith, h.inside, length-overwrite (written m.dst) m.body) in
      let laid : IsLaid rt ports room m' = record {
        start = at;
        inside = inside;
        bounded = omega (arith, k, length-overwrite (written m.dst) m.body);
        takes = h.takes;
      } in
      let kept : buffer_of rt ports m' ≡ buffer_of rt ports m =
        rw (buffer_of-IsLaid rt ports room m h, buffer_of-IsLaid rt ports room m' laid)
          (drop-overwrite room (written m.dst) m.body (written-le m.dst room h.takes)) in
      (
        sent room m,
        pack-IsLaid rt ports room m h,
        m',
        unpack-sent room there m h,
        record {
          to_dst = refl;
          same_buffer = kept;
          same_ref = refl;
          same_ep = refl;
          same_kind = refl;
          laid = laid;
        },
      )

module _ {P : Type 0} (rt : Runtime) (ports : PortCodec P) where
  -- The new message does not wrap around the end of the memory.
  abbrev pub AllocFits : ℕ → Option P → Type 0
  AllocFits user_size dst =
      let n = port_size rt ports dst + user_size in Fits rt (rt.alloc_addr n) n

  pub real_size-le : (dst : Option P) → real_size rt ports dst ≤ port_size rt ports dst
  unfolding port_size
  real_size-le dst = ground arith

  -- A new message is laid out for its destination.
  pub make_message-IsLaid :
      (user_size : ℕ) (dst : Option P)
      → AllocFits user_size dst
      → IsLaid rt ports (port_size rt ports dst) (make_message rt ports user_size dst)
  unfolding make_message
  make_message-IsLaid user_size dst fits =
      let n = port_size rt ports dst + user_size in
      record {
        start = refl;
        inside = omega (arith, rt.alloc_length n);
        bounded = omega (arith, rt.alloc_length n, fits);
        takes = real_size-le dst;
      }

  pub length-make_message :
      (user_size : ℕ) (dst : Option P)
      → length (make_message rt ports user_size dst).body ≡ port_size rt ports dst + user_size
  unfolding make_message
  length-make_message user_size dst = rt.alloc_length (port_size rt ports dst + user_size)

  pub write_payload-IsLaid :
      (room : ℕ) (bytes : List ℕ) (m : Message P)
      → IsLaid rt ports room m
      → IsLaid rt ports room (write_payload rt ports bytes m)
  unfolding write_payload
  write_payload-IsLaid room bytes m h =
      let at = sub_word (sub_word m.payload m.addr) rt.hdr_size in
      record {
        start = h.start;
        inside = omega (arith, h.inside, length-overwrite_at at bytes m.body);
        bounded = omega (arith, h.bounded, length-overwrite_at at bytes m.body);
        takes = h.takes;
      }

  pub buffer_of-write_payload :
      (room : ℕ) (bytes : List ℕ) (m : Message P)
      → IsLaid rt ports room m
      → length m.body ≡ room + length bytes
      → buffer_of rt ports (write_payload rt ports bytes m) ≡ bytes
  unfolding write_payload
  buffer_of-write_payload room bytes m h k =
      let m' = write_payload rt ports bytes m in
      let laid = write_payload-IsLaid room bytes m h in
      let rest : length bytes ≡ length (drop room m.body) =
        omega (arith, length-drop room m.body, k) in
      let at : sub_word (sub_word m.payload m.addr) rt.hdr_size ≡ room =
        available m.addr rt.hdr_size room h.start (omega (arith, h.bounded, h.inside)) in
      buffer_of-IsLaid rt ports room m' laid
      ∙ rw (at, drop-overwrite_at room bytes m.body) (overwrite_whole bytes (drop room m.body) rest)

  -- Arguments that are packed for a port can be read from the new message.
  pub pack_to_port-holds :
      (dst : Option P) (bytes : List ℕ)
      → AllocFits (length bytes) dst
      → buffer_of rt ports (pack_to_port rt ports dst bytes) ≡ bytes
  unfolding pack_to_port
  pack_to_port-holds dst bytes fits =
      buffer_of-write_payload (port_size rt ports dst) bytes
        (make_message rt ports (length bytes) dst) (make_message-IsLaid (length bytes) dst fits)
        (length-make_message (length bytes) dst)

  -- A new message that fits into the memory and is given another destination: packing it aborts
  -- exactly if that destination takes more bytes than the first one and than the least room.
  redirect_aborts :
      (user_size : ℕ) (dst other : Option P)
      → AllocFits user_size dst
      → (pack rt ports (record (make_message rt ports user_size dst) { dst = other }) ≡ none)
        ↔ (port_size rt ports dst < real_size rt ports other)
  unfolding pack make_message
  redirect_aborts user_size dst other fits =
      let n = port_size rt ports dst + user_size in
      let room =
        available (rt.alloc_addr n) rt.hdr_size (port_size rt ports dst) refl
          (omega (arith, fits)) in
      ground (arith, room)
