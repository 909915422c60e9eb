-- ===== src/Messages.antt =====
-- include/hypercomm/messaging/messaging.hpp, packing.hpp and src/hypercomm/messaging/messaging.cc:
-- messages with a header, room for the destination port, and a payload.
-- A message holds its own address `addr`, and `body`, the bytes behind its header: the room and then
-- the payload. `payload` is an address, and the distance from the header's start while the message
-- is packed; addresses have 64 bits. The Charm++ runtime is the record `Runtime`: the size of the
-- header, the allocation of messages, the index of the demultiplexer and `CMK_ERROR_CHECKING`.
pub mod Flags
pub mod Packing
pub mod Deliverables
pub mod Typed
pub mod Transfer
pub mod Fetched
pub mod Receive
pub mod Wire
mod Tests
use hypercomm.Base.{
  ℕ, ◌+◌, ◌-◌, ◌%◌, ◌^◌, ◌<◌, ◌≤◌, ◌≡◌, ◌≢◌, Bool, true, List, [], ◌∷◌, ◌++◌, Option, none, some,
  ltb, leb, length, nat_beq, drop, overwrite, overwrite_at, bit_and, bit_or, if◌then◌else◌, ◌>>=◌,
}

-- `__attribs__`: the bits of the reference number.
abbrev pub null_mask : ℕ
null_mask = 1

abbrev pub redn_mask : ℕ
redn_mask = 2

abbrev pub zero_copy_mask : ℕ
zero_copy_mask = 4

-- `ptr_record::IGNORED`, of one byte.
abbrev pub ignored : ℕ
ignored = 1

abbrev pub min_port_size : ℕ
min_port_size = 48

-- `CkMessage` with its envelope: `is_message` tells a `__msg__` from the runtime's own messages.
pub record Message (P : Type 0) : Type 0 where
  pub is_message : Bool
  pub addr : ℕ
  pub dst : Option P
  pub payload : ℕ
  pub body : List ℕ
  pub ref : ℕ
  pub ep_idx : ℕ

-- How a port is written: the first byte is the kind of a pointer record, which is `IGNORED` only for
-- null.
pub record PortCodec (P : Type 0) : Type 0 where
  pub put : P → List ℕ
  pub get : List ℕ → Option (P × List ℕ)
  pub get-put : (p : P) (rest : List ℕ) → get (put p ++ rest) ≡ some (p, rest)
  pub put_kind : (p : P) → (b : ℕ) × (bytes : List ℕ) × (put p ≡ b ∷ bytes) × (b ≢ ignored)

-- `CkAllocMsg` gives a message of that many bytes behind the header, whose contents are not set.
pub record Runtime : Type 0 where
  pub hdr_size : ℕ
  pub alloc_addr : ℕ → ℕ
  pub alloc_bytes : ℕ → List ℕ
  pub demux : ℕ
  pub registered : Bool
  pub error_checking : Bool
  pub alloc_length : (n : ℕ) → length (alloc_bytes n) ≡ n

-- A message with so many bytes behind its header ends below 2 ^ 64.
abbrev pub Fits : Runtime → ℕ → ℕ → Type 0
Fits rt addr n = addr + rt.hdr_size + n < 2 ^ 64

-- Unsigned subtraction of 64 bits.
unfoldable pub sub_word : ℕ → ℕ → ℕ
sub_word a b = (a + (2 ^ 64 - b)) % 2 ^ 64

module _ {P : Type 0} where
  -- `is_zero_copy`, `is_null` and `is_redn`.
  unfoldable pub is_zero_copy : Message P → Bool
  is_zero_copy m = ltb 0 (bit_and m.ref zero_copy_mask)

  unfoldable pub is_null : Message P → Bool
  is_null m = ltb 0 (bit_and m.ref null_mask)

  unfoldable pub is_redn : Message P → Bool
  is_redn m = ltb 0 (bit_and m.ref redn_mask)

  -- `set_flag_`; reference numbers have 16 bits.
  unfoldable pub set_flag : ℕ → Bool → Message P → Message P
  set_flag mask value m = record m {
    ref = if value then bit_or m.ref mask else bit_and m.ref (2 ^ 16 - 1 - mask);
  }

  -- `set_redn` and `set_zero_copy`.
  unfoldable pub set_redn : Bool → Message P → Message P
  set_redn = set_flag redn_mask

  unfoldable pub set_zero_copy : Bool → Message P → Message P
  set_zero_copy = set_flag zero_copy_mask

module _ {P : Type 0} (rt : Runtime) (ports : PortCodec P) where
  -- The size of the destination as it is packed.
  unfoldable pub real_size : Option P → ℕ
  real_size none = 1
  real_size (some p) = length (ports.put p)

  unfoldable pub port_size : Option P → ℕ
  port_size dst = if ltb (real_size dst) min_port_size then min_port_size else real_size dst

  -- `make_message`.
  unfoldable pub make_message : ℕ → Option P → Message P
  make_message user_size dst =
      let n = port_size dst + user_size in
      record {
        is_message = true;
        addr = rt.alloc_addr n;
        dst = dst;
        payload = rt.alloc_addr n + rt.hdr_size + port_size dst;
        body = rt.alloc_bytes n;
        ref = 0;
        ep_idx = if rt.registered then rt.demux else 0;
      }

  -- `make_null_message`.
  unfoldable pub make_null_message : Option P → Message P
  make_null_message dst = record (make_message 0 dst) { ref = null_mask }

  -- `pack`; a destination that does not fit aborts.
  unfoldable pub pack : Message P → Option (Message P)
  pack m =
      let offset = sub_word m.payload m.addr in
      let avail = sub_word offset rt.hdr_size in
      if leb (real_size m.dst) avail
      then some (record m {
        payload = offset;
        body = overwrite (elim m.dst [ none ↦ ignored ∷ [] | some p ↦ ports.put p ]) m.body;
      })
      else none

  -- What `unpack` reads behind the header, by an unpacker that counts the bytes it takes.
  unfoldable pub read_dst : ℕ → List ℕ → Option (Option P)
  read_dst expected [] = none
  read_dst expected (kind ∷ bytes) = if nat_beq kind ignored then some none else (do
    (p, rest) ← ports.get (kind ∷ bytes)
    if leb (length (kind ∷ bytes) - length rest) expected then some (some p) else none)

  -- `unpack`; a destination that takes more than its room is a failed assertion.
  unfoldable pub unpack : Message P → Option (Message P)
  unpack m = do
    dst ← read_dst (sub_word m.payload rt.hdr_size) m.body
    some (record m { payload = (m.payload + m.addr) % 2 ^ 64; dst = dst })

  -- The payload, from `get_message_buffer` on, and a write to it.
  unfoldable pub buffer_of : Message P → List ℕ
  buffer_of m = drop (sub_word (sub_word m.payload m.addr) rt.hdr_size) m.body

  unfoldable pub write_payload : List ℕ → Message P → Message P
  write_payload bytes m = record m {
    body = overwrite_at (sub_word (sub_word m.payload m.addr) rt.hdr_size) bytes m.body;
  }

  -- `pack_to_port`, for arguments that are packed as these bytes.
  unfoldable pub pack_to_port : Option P → List ℕ → Message P
  pack_to_port dst bytes = write_payload bytes (make_message (length bytes) dst)
