-- ===== src/Messages/Wire.antt =====
-- src/hypercomm/messaging/interceptor.cc (send_to_branch, deliver_handler_) and interceptor.hpp
-- (interceptor_msg_): how a message of the program crosses processing elements. Its envelope is
-- overwritten on the way, and restored from a header by the handler, which runs again when the message
-- was held back until its array exists. A failed assertion, or an abort, is `none`.
use hypercomm.Base.{
  ℕ, zero, suc, ◌≡◌, refl, Bool, true, false, not, ◌&&◌, ◌||◌, Option, none, some, is_some, nat_beq,
  length, if◌then◌else◌, ◌>>=◌,
}
use hypercomm.Messages.{Message, Runtime, PortCodec, Fits, pack, unpack, buffer_of}
use hypercomm.Messages.Packing.{IsLaid, Arrives, unpack-pack_moved}

-- A message with the parts of its envelope that `Message` leaves out.
pub record Enveloped (P : Type 0) : Type 0 where
  pub total_size : ℕ
  pub is_packed : Bool
  pub msg : Message P

-- `header_`; the index of the message's type tells a `__msg__` from other messages.
pub record Header : Type 0 where
  pub total_size : ℕ
  pub ref_num : ℕ
  pub ep_idx : ℕ
  pub msg_idx : Bool
  pub packed : Bool

-- `interceptor_msg_`, whose header lies over the envelope, and what follows it.
pub record Wire (P : Type 0) : Type 0 where
  pub hdr : Header
  pub rest : Enveloped P

-- Where the handler hands a message.
pub data Handed (P : Type 0) : Type 0 where
  to_branch : Enveloped P → Handed P
  to_array : Enveloped P → Handed P
  held_back : Wire P → Handed P

module _ {P : Type 0} where
  abbrev pub header_of : Enveloped P → Header
  header_of em = record {
    total_size = em.total_size;
    ref_num = em.msg.ref;
    ep_idx = em.msg.ep_idx;
    msg_idx = em.msg.is_message;
    packed = em.is_packed;
  }

  -- The envelope is filled with zeroes: nothing of it is left.
  abbrev pub fill_zero : Enveloped P → Enveloped P
  fill_zero em = record {
    total_size = 0;
    is_packed = false;
    msg = record em.msg { is_message = false; ref = 0; ep_idx = 0 };
  }

  -- `header_::export_to`.
  abbrev pub export_header : Header → Enveloped P → Enveloped P
  export_header hdr em = record {
    total_size = hdr.total_size;
    is_packed = hdr.packed;
    msg = record em.msg { is_message = hdr.msg_idx; ref = hdr.ref_num; ep_idx = hdr.ep_idx };
  }

module _ {P : Type 0} (rt : Runtime) (ports : PortCodec P) where
  -- `has_valid_endpoint`.
  unfoldable pub has_valid_endpoint : Message P → Bool
  has_valid_endpoint m = not (m.is_message && nat_beq m.ep_idx rt.demux) || is_some m.dst

  -- `send_to_branch`, to another processing element: the message is packed, unless it is already or
  -- stays on the node. `packer` says whether messages of its type can be packed, as a `__msg__` can.
  unfoldable pub send_remote : Bool → Bool → Enveloped P → Option (Wire P)
  send_remote packer same_node em =
      let hdr = header_of em in
      let wiped : Enveloped P = fill_zero em in
      let packed = packer && (hdr.packed || not same_node) in
      if has_valid_endpoint em.msg
      then ((if packed && not hdr.packed then pack rt ports wiped.msg else some wiped.msg) >>= λ m.
          some (record { hdr = record hdr { packed = packed }; rest = record wiped { msg = m } }))
      else none

  -- `deliver_handler_`, by whether the branch of the interceptor and the array are there.
  unfoldable pub deliver_handler : Bool → Bool → Wire P → Option (Handed P)
  deliver_handler has_branch has_array w = do
    m ← if w.hdr.packed then unpack rt ports w.rest.msg else some w.rest.msg
    let hdr = record w.hdr { packed = false } in
        let em : Enveloped P = record w.rest { msg = m } in
        some (
          if has_branch
          then to_branch (export_header hdr (fill_zero em))
          else if has_array
          then to_array (export_header hdr (fill_zero em))
          else held_back (record { hdr = hdr; rest = em }))

  -- The handler, so many times before anything is there and then once more.
  unfoldable pub handle_late : ℕ → Bool → Wire P → Option (Handed P)
  handle_late zero has_branch w = deliver_handler has_branch true w
  handle_late (suc n) has_branch w = deliver_handler false false w >>= λ handed. elim handed [
    | held_back w1 ↦ handle_late n has_branch w1
    | to_branch m ↦ none
    | to_array m ↦ none
  ]

  abbrev pub at_end : Bool → Enveloped P → Handed P
  at_end has_branch m = if has_branch then to_branch m else to_array m

  -- A message that is unpacked waits unchanged, and one that is packed is unpacked once.
  handle_late-unpacked :
      (n : ℕ) (has_branch : Bool) (hdr : Header) (em : Enveloped P)
      → handle_late n has_branch (record { hdr = record hdr { packed = false }; rest = em })
        ≡ some (at_end has_branch (export_header (record hdr { packed = false }) em))
  unfolding handle_late deliver_handler
  handle_late-unpacked zero true hdr em = refl
  handle_late-unpacked zero false hdr em = refl
  handle_late-unpacked (suc n) has_branch hdr em = handle_late-unpacked n has_branch hdr em

  handle_late-packed :
      (n : ℕ) (has_branch : Bool) (hdr : Header) (em : Enveloped P) (m' : Message P)
      → unpack rt ports em.msg ≡ some m'
      → handle_late n has_branch (record { hdr = record hdr { packed = true }; rest = em })
        ≡ some (
            at_end has_branch
              (export_header (record hdr { packed = false }) (record em { msg = m' })))
  unfolding handle_late deliver_handler
  handle_late-packed zero true hdr em m' h = rw (deliver_handler, h) refl
  handle_late-packed zero false hdr em m' h = rw (deliver_handler, h) refl
  handle_late-packed (suc n) has_branch hdr em m' h =
      rw (handle_late, deliver_handler, h)
        (handle_late-unpacked n has_branch hdr (record em { msg = m' }))

  -- The arrival of a message that was sent to another node, at its address there.
  unfoldable pub cross : ℕ → ℕ → Bool → Enveloped P → Option (Handed P)
  cross there n has_branch em = do
    w ← send_remote true false em
    let rest : Enveloped P = record w.rest { msg = record w.rest.msg { addr = there } } in
        handle_late n has_branch (record w { rest = rest })

  -- A message that is not packed, with a valid endpoint, laid out with room for its destination, and
  -- with space at its address on the other node: it is packed without an abort, and however often
  -- its handler finds neither branch nor array before one of them is there, it is handed over once,
  -- unpacked, with its destination and payload, although its envelope was overwritten on the way:
  -- the type, reference number, entry point and size of the envelope are as before, and it is not
  -- marked as packed.
  pub cross-Arrives :
      (there n room : ℕ) (has_branch : Bool) (em : Enveloped P)
      → has_valid_endpoint em.msg ≡ true
      → em.is_packed ≡ false
      → IsLaid rt ports room em.msg
      → Fits rt there (length em.msg.body)
      → (em' : Enveloped P) × (cross there n has_branch em ≡ some (at_end has_branch em'))
        × Arrives rt ports room em.msg em'.msg
        × (em'.total_size ≡ em.total_size)
        × (em'.is_packed ≡ false)
  unfolding cross send_remote buffer_of
  cross-Arrives there n room has_branch em valid plain laid fits =
      let wiped : Message P = (fill_zero em).msg in
      let laid_wiped : IsLaid rt ports room wiped = record {
        start = laid.start;
        inside = laid.inside;
        bounded = laid.bounded;
        takes = laid.takes;
      } in
      let (packed, packs, m', unpacks, arrives) =
        unpack-pack_moved rt ports room there wiped laid_wiped fits in
      let sent : Enveloped P = record {
        total_size = 0;
        is_packed = false;
        msg = record packed { addr = there };
      } in
      (
        export_header (record (header_of em) { packed = false }) (record sent { msg = m' }),
        rw (cross, send_remote, valid, plain, packs)
            (handle_late-packed n has_branch (header_of em) sent m' unpacks),
        record {
          to_dst = arrives.to_dst;
          same_buffer = arrives.same_buffer;
          same_ref = refl;
          same_ep = refl;
          same_kind = refl;
          laid = record {
            start = arrives.laid.start;
            inside = arrives.laid.inside;
            bounded = arrives.laid.bounded;
            takes = arrives.laid.takes;
          };
        },
        refl,
        refl,
      )
