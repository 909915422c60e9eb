-- ===== src/Serialization/Unpacking.antt =====
-- One step of the unpacking of a pointer, include/hypercomm/serialization/pup.hpp, by the record
-- that stands ahead.
use hypercomm.Base.{
  ℕ, suc, ◌^◌, ◌<◌, ◌≡◌, List, [], ◌∷◌, ◌++◌, append_assoc, none, some, arith, length, nat_eq,
  lookup, insert, if_true, if_false, ◌>>=◌,
}
use hypercomm.Serialization.Bytes.{word_size, put_word, get_word-put_word}
use hypercomm.Serialization.Containers.{Puper}
use hypercomm.Serialization.Records.{
  reference, an_instance, PtrRecord, is_instance, get_body, get_ptr_record,
}
use hypercomm.Serialization.Meeting.{record_bytes}
use hypercomm.Serialization.Pointers.{Form, Unpacker, fill, put_instance, unpack_fields, unpack_ptr}

record_bytes-announced :
    (rec : PtrRecord)
    → rec.kind ≡ an_instance
    → record_bytes rec ≡ 4 ∷ put_word word_size rec.id ++ put_word word_size rec.ty
unfolding record_bytes
record_bytes-announced rec k = if_true {b = is_instance rec} _ _ (ground arith)

record_bytes-reference :
    (rec : PtrRecord) → rec.kind ≡ reference → record_bytes rec ≡ 3 ∷ put_word word_size rec.id
unfolding record_bytes
record_bytes-reference rec k = if_false {b = is_instance rec} _ _ (ground arith)

abbrev on_wire : PtrRecord → PtrRecord
on_wire rec = record { kind = an_instance; id = rec.id; ty = rec.ty; progenitor = none }

get_ptr_record-announced :
    (rec : PtrRecord) (rest : List ℕ)
    → rec.kind ≡ an_instance
    → rec.id < 256 ^ word_size
    → rec.ty < 256 ^ word_size
    → get_ptr_record (record_bytes rec ++ rest) ≡ some (on_wire rec, rest)
unfolding get_ptr_record get_body
get_ptr_record-announced rec rest k id ty = simp (
  record_bytes-announced rec k,
  append_assoc,
  get_word-put_word word_size rec.id (put_word word_size rec.ty ++ rest) id,
  get_word-put_word word_size rec.ty rest ty,
)

get_ptr_record-reference :
    (rec : PtrRecord) (rest : List ℕ)
    → rec.kind ≡ reference
    → rec.id < 256 ^ word_size
    → get_ptr_record (record_bytes rec ++ rest)
      ≡ some (record { kind = reference; id = rec.id; ty = 0; progenitor = none }, rest)
unfolding get_ptr_record get_body
get_ptr_record-reference rec rest k id =
    simp (record_bytes-reference rec k, get_word-put_word word_size rec.id rest id)

-- The unpacker with the new object, before it is filled.
abbrev pub opened : {D : Type 0} → Unpacker D → List ℕ → PtrRecord → Unpacker D
opened u rest rec = record {
  input = rest;
  instances = insert rec.id (length u.objects) u.instances;
  objects = u.objects ++ record { ty = rec.ty; fields = [] } ∷ [];
}

module _ {D : Type 0} ⦃p : Puper D⦄ (fields_of : ℕ → List Form) (fuel : ℕ) (u : Unpacker D)
    (rest : List ℕ) where
  pub unpack_ptr-null :
      u.input ≡ 1 ∷ rest
      → unpack_ptr fields_of (suc fuel) u ≡ some (none, record u { input = rest })
  unfolding unpack_ptr get_ptr_record get_body
  unpack_ptr-null e = simp e

  module _ (rec : PtrRecord) (ahead : u.input ≡ record_bytes rec ++ rest)
      (id : rec.id < 256 ^ word_size) where
    pub unpack_ptr-reference :
        rec.kind ≡ reference
        → unpack_ptr fields_of (suc fuel) u
          ≡ some (lookup rec.id u.instances, record u { input = rest })
    unfolding unpack_ptr
    unpack_ptr-reference k = simp (ahead, get_ptr_record-reference rec rest k id)

    pub unpack_ptr-instance :
        rec.kind ≡ an_instance
        → rec.ty < 256 ^ word_size
        → lookup rec.id u.instances ≡ none
        → unpack_ptr fields_of (suc fuel) u ≡ (
            unpack_fields fields_of
              (unpack_ptr fields_of fuel)
              (fields_of rec.ty)
              (opened u rest rec)
            >>= λ (fields, u3).
                some (some (length u.objects), fill (length u.objects) rec.ty fields u3))
    unfolding unpack_ptr put_instance
    unpack_ptr-instance k ty new = simp (ahead, get_ptr_record-announced rec rest k id ty, new)
