-- ===== src/Messages/Deliverables.antt =====
-- include/hypercomm/messaging/endpoint.hpp, deliverable.hpp and core/zero_copy_value.hpp: what is
-- handed over between ports and components. A deliverable that is moved from is `invalid`; its pointer
-- may be null. A failed assertion is `none`. Virtual calls to values stand in `Value`.
use hypercomm.Base.{
  ℕ, ◌+◌, Bool, true, false, not, ◌&&◌, ◌||◌, List, Option, none, some, ltb, nat_beq, length, null,
  set, replicate, is_some, if◌then◌else◌,
}
use hypercomm.Messages.{Message, Runtime}

-- `endpoint`: the index of an entry method and perhaps a port.
pub record Endpoint (P : Type 0) : Type 0 where
  pub idx : ℕ
  pub port : Option P

-- `hyper_value`, with what it holds.
pub record Value (P V : Type 0) : Type 0 where
  pub flags : ℕ
  pub source : Endpoint P
  pub content : V

-- `zero_copy_value`: the announced buffers, and the memory that was received for each.
pub record ZeroCopyValue (P : Type 0) : Type 0 where
  pub buffers : List (List ℕ)
  pub values : List (Option (List ℕ))
  pub n_received : ℕ
  pub ep : Endpoint P
  pub msg : Message P
  pub offset : List ℕ

-- The kinds of a deliverable, with its pointer.
pub data Storage (P V : Type 0) : Type 0 where
  invalid : Storage P V
  message : Option (Message P) → Storage P V
  value : Option (Value P V) → Storage P V
  deferred : Option (ZeroCopyValue P) → Storage P V

pub record Deliverable (P V : Type 0) : Type 0 where
  pub storage : Storage P V
  pub ep : Endpoint P

module _ {P : Type 0} where
  -- `endpoint(tags::reconstruct)`.
  abbrev pub no_endpoint : Endpoint P
  no_endpoint = record { idx = 0; port = none }

  -- `endpoint(CkMessage*)` takes the port out of the message.
  unfoldable pub learn_endpoint : Message P → Endpoint P × Message P
  learn_endpoint m = (
    record { idx = m.ep_idx; port = if m.is_message then m.dst else none },
    if m.is_message then record m { dst = none } else m,
  )

  -- `export_to`.
  unfoldable pub export_to : Endpoint P → Message P → Message P
  export_to ep m =
      let dst = if m.is_message then ep.port else m.dst in record m { ep_idx = ep.idx; dst = dst }

  -- `is_demux`, `operator bool` and `operator==`.
  unfoldable pub is_demux : Runtime → Endpoint P → Bool
  is_demux rt ep = nat_beq ep.idx rt.demux

  unfoldable pub is_valid : Runtime → Endpoint P → Bool
  is_valid rt ep = not (nat_beq ep.idx 0) && (not (is_demux rt ep) || is_some ep.port)

  -- `ready` of a zero-copy value.
  unfoldable pub ready : ZeroCopyValue P → Bool
  ready zc = ltb 0 zc.n_received && nat_beq zc.n_received (length zc.buffers)

  -- `receive` for the buffer at a position; no buffer is at a position past the end.
  unfoldable pub receive_buffer : ℕ → List ℕ → ZeroCopyValue P → Bool × ZeroCopyValue P
  receive_buffer pos memory zc =
      let slots = if null zc.values then replicate (length zc.buffers) none else zc.values in
      if ltb pos (length zc.buffers)
      then (
        true,
        record zc { values = set slots pos (some memory); n_received = zc.n_received + 1 },
      )
      else (false, zc)

module _ {P V : Type 0} where
  -- The constructors from a message, a zero-copy value and a value; the null pointers that they
  -- would follow are `none`.
  unfoldable pub of_message : Option (Message P) → Option (Deliverable P V)
  of_message none = none
  of_message (some m) =
      let (ep, m') = learn_endpoint m in some (record { storage = message (some m'); ep = ep })

  unfoldable pub of_deferred : Option (ZeroCopyValue P) → Option (Deliverable P V)
  of_deferred none = none
  of_deferred (some zc) = some (record {
    storage = deferred (some (record zc { ep = record zc.ep { port = none } }));
    ep = zc.ep;
  })

  unfoldable pub of_value : Option (Value P V) → Option (Deliverable P V)
  of_value none = none
  of_value (some v) = some (record {
    storage = value (some (record v { source = record v.source { port = none } }));
    ep = v.source;
  })

  -- `invalidate_`, and the move constructor and assignment: the new object and what it was moved
  -- from. The assignment keeps its endpoint where the other has none.
  unfoldable pub invalidate : Deliverable P V → Deliverable P V
  invalidate dev = record dev { storage = invalid }

  unfoldable pub move_construct : Deliverable P V → Deliverable P V × Deliverable P V
  move_construct other = (other, invalidate (record other { ep = record other.ep { port = none } }))

  unfoldable pub move_assign :
      Runtime → Deliverable P V → Deliverable P V → Deliverable P V × Deliverable P V
  move_assign rt dev other =
      let takes = is_valid rt other.ep in
      let left : Endpoint P = if takes then record other.ep { port = none } else other.ep in
      (
        record { storage = other.storage; ep = if takes then other.ep else dev.ep },
        invalidate (record other { ep = left }),
      )

  -- `operator bool`.
  unfoldable pub has_content : Deliverable P V → Bool
  has_content dev = elim dev.storage [
    | deferred (some zc) ↦ ready zc
    | message (some _) ↦ true
    | value _ ↦ true
    | _ ↦ false
  ]

  -- `release` for the three kinds, which keeps the kind and clears the pointer.
  unfoldable pub release_message : Deliverable P V → Option (Message P × Deliverable P V)
  release_message dev = elim dev.storage [
    | message (some m) ↦ some (m, record dev { storage = message none })
    | _ ↦ none
  ]

  unfoldable pub release_value : Deliverable P V → Option (Option (Value P V) × Deliverable P V)
  release_value dev = elim dev.storage [
    | value v ↦ some (v, record dev { storage = value none })
    | _ ↦ none
  ]

  unfoldable pub release_deferred : Deliverable P V → Option (ZeroCopyValue P × Deliverable P V)
  release_deferred dev = elim dev.storage [
    | deferred (some zc) ↦ some (zc, record dev { storage = deferred none })
    | _ ↦ none
  ]
