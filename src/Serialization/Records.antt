-- ===== src/Serialization/Records.antt =====
-- include/hypercomm/serialization/serdes.hpp: the cursor over the bytes, and the records by which
-- a pass knows the shared objects that it has met. An object stands for its address, and a pass
-- for its own, `ident`.
use hypercomm.Base.{
  ℕ, ◌+◌, Bool, true, false, List, [], ◌∷◌, ◌++◌, Option, none, some, length, nat_beq, nat_eq,
  Assoc, lookup, insert, emplace, if◌then◌else◌, ◌>>=◌,
}
use hypercomm.Serialization.Bytes.{word_size, put_word, get_word}

pub data Kind : Type 0 where
  invalid : Kind
  ignored : Kind
  deferred : Kind
  reference : Kind
  an_instance : Kind

pub record PtrRecord : Type 0 where
  pub kind : Kind
  pub id : ℕ
  pub ty : ℕ
  pub progenitor : Option ℕ

abbrev pub null_record : PtrRecord
null_record = record { kind = ignored; id = 0; ty = 0; progenitor = none }

abbrev pub is_instance : PtrRecord → Bool
is_instance rec = elim rec.kind [ an_instance ↦ true | _ ↦ false ]

pub data Phase : Type 0 where
  sizing : Phase
  packing : Phase

-- A sizer or a packer. `current` is the distance from `start`, and `written` what stands there.
pub record Serdes : Type 0 where
  pub ident : ℕ
  pub phase : Phase
  pub current : ℕ
  pub written : List ℕ
  pub records : Assoc ℕ PtrRecord

abbrev pub sizer : ℕ → Serdes
sizer ident = record { ident = ident; phase = sizing; current = 0; written = []; records = [] }

abbrev pub packer : ℕ → Serdes
packer ident = record { ident = ident; phase = packing; current = 0; written = []; records = [] }

-- `copy` while sizing or packing.
unfoldable pub copy : List ℕ → Serdes → Serdes
copy bytes s = record s {
  current = s.current + length bytes;
  written = elim s.phase [ packing ↦ s.written ++ bytes | sizing ↦ s.written ];
}

-- `acquire` at the records of the other pass, which loses them.
unfoldable pub emplace_all : Assoc ℕ PtrRecord → Assoc ℕ PtrRecord → Assoc ℕ PtrRecord
emplace_all [] records = records
emplace_all ((a, rec) ∷ entries) records = emplace_all entries (emplace a rec records)

unfoldable pub acquire : Serdes → Serdes → Serdes × Serdes
acquire s other =
    (record s { records = emplace_all other.records s.records }, record other { records = [] })

-- What `get_record` does with a record that it finds; `none` if the record has no progenitor.
unfoldable pub meet : ℕ → PtrRecord → Option PtrRecord
meet ident rec = elim rec.progenitor [
  | none ↦ none
  | some origin ↦ some (
      if nat_beq ident origin
      then record rec { kind = elim rec.kind [ an_instance ↦ reference | k ↦ k ] }
      else record rec { progenitor = some ident; kind = an_instance })
]

-- The new record of a first meeting.
abbrev pub first_record : Serdes → ℕ → PtrRecord
first_record s ty = record {
  kind = an_instance;
  id = length s.records + 1;
  ty = ty;
  progenitor = some s.ident;
}

-- `get_record`, with the result of `fn()`.
unfoldable pub get_record : ℕ → ℕ → Serdes → Option (PtrRecord × Serdes)
get_record a ty s = elim (lookup a s.records) [
  | none ↦ some (first_record s ty, record s { records = insert a (first_record s ty) s.records })
  | some old ↦ meet s.ident old >>= λ rec. some (rec, record s { records = insert a rec s.records })
]

-- `puper<ptr_record>`. A kind has one byte; the last clause of `get_ptr_record` stands for the
-- abort on an unknown kind and for a read past the end.
unfoldable pub put_ptr_record : PtrRecord → Option (List ℕ)
put_ptr_record rec = elim rec.kind [
  | invalid ↦ none
  | ignored ↦ some (1 ∷ [])
  | deferred ↦ some (2 ∷ put_word word_size rec.id ++ put_word word_size rec.ty)
  | reference ↦ some (3 ∷ put_word word_size rec.id)
  | an_instance ↦ some (4 ∷ put_word word_size rec.id ++ put_word word_size rec.ty)
]

abbrev pub kind_of_byte : ℕ → Option Kind
kind_of_byte b =
    if nat_beq b 1
    then some ignored
    else if nat_beq b 2
    then some deferred
    else if nat_beq b 3
    then some reference
    else if nat_beq b 4
    then some an_instance
    else none

-- The fields that stand behind a kind.
unfoldable pub get_body : Kind → List ℕ → Option (PtrRecord × List ℕ)
get_body invalid bytes = none
get_body ignored bytes = some (null_record, bytes)
get_body reference bytes = do
  (id, rest) ← get_word word_size bytes
  some (record { kind = reference; id = id; ty = 0; progenitor = none }, rest)
get_body kind bytes = do
  (id, rest) ← get_word word_size bytes
  (ty, rest') ← get_word word_size rest
  some (record { kind = kind; id = id; ty = ty; progenitor = none }, rest')

unfoldable pub get_ptr_record : List ℕ → Option (PtrRecord × List ℕ)
get_ptr_record [] = none
get_ptr_record (b ∷ bytes) = do kind ← kind_of_byte b; get_body kind bytes

-- `pup(s, rec)` of a pass that sizes or packs.
unfoldable pub write_record : PtrRecord → Serdes → Option Serdes
write_record rec s = put_ptr_record rec >>= λ bytes. some (copy bytes s)
