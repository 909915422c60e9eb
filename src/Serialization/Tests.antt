-- ===== src/Serialization/Tests.antt =====
-- A heap of two objects that lead to one another: its bytes, and what comes back.
use hypercomm.Base.{
  ℕ, zero, suc, ◌<◌, ◌^◌, ◌≡◌, refl, subst, List, [], ◌∷◌, ◌++◌, Option, none, some, arith, length,
  map, get_elem?, All, Assoc, nat_eq, lookup, insert, ◌==◌, if◌then◌else◌,
}
use hypercomm.Serialization.Bytes.{word_size, put_word}
use hypercomm.Serialization.Containers.{word_puper, pair_puper, put_map, get_map, get_map-put_map}
use hypercomm.Serialization.Records.{
  reference, PtrRecord, sizing, Serdes, sizer, packer, acquire, copy, get_record, meet,
  write_record, put_ptr_record,
}
use hypercomm.Serialization.Pointers.{
  value, pointer, Object, Form, of_value, of_pointer, Unpacker, unpacker, pack_fields, pack_ptr,
  unpack_ptr,
}
use hypercomm.Serialization.Images.{form}
use hypercomm.Serialization.Passes.{FieldFits, IsFormed}
use hypercomm.Serialization.Transfer.{IsCopy, unpack-pack}
use hypercomm.Serialization.Sizes.{size-pack}

abbrev chare_a : Object ℕ
chare_a = record { ty = 5; fields = value 7 ∷ pointer (some 1) ∷ [] }

abbrev chare_b : Object ℕ
chare_b = record { ty = 6; fields = pointer (some 0) ∷ pointer none ∷ pointer (some 1) ∷ [] }

abbrev knot : List (Object ℕ)
knot = chare_a ∷ chare_b ∷ []

abbrev knot_forms : ℕ → List Form
knot_forms ty =
    if ty == 5
    then of_value ∷ of_pointer ∷ []
    else if ty == 6
    then of_pointer ∷ of_pointer ∷ of_pointer ∷ []
    else []

abbrev Formed : Object ℕ → Type 0
Formed o =
    (map form o.fields ≡ knot_forms o.ty)
    × All (FieldFits knot_forms knot) o.fields
    × (o.ty < 256 ^ word_size)

knot-Formed : (a : ℕ) (o : Object ℕ) → get_elem? knot a ≡ some o → Formed o
knot-Formed zero o e =
    let same : chare_a ≡ o = cc in subst Formed same (refl, omega arith, omega arith)
knot-Formed (suc zero) o e =
    let same : chare_b ≡ o = cc in subst Formed same (refl, omega arith, omega arith)
knot-Formed (suc (suc a)) o e = cc

knot-IsFormed : IsFormed knot_forms knot
knot-IsFormed = record { formed = knot-Formed; small = omega arith }

abbrev met_twice : ℕ → ℕ → PtrRecord
met_twice id ty = record { kind = reference; id = id; ty = ty; progenitor = some 1 }

abbrev sized : Serdes
sized = record {
  ident = 1;
  phase = sizing;
  current = 61;
  written = [];
  records = (0, met_twice 1 5) ∷ (1, met_twice 2 6) ∷ [];
}

sized-knot : pack_ptr knot 3 (some 0) (sizer 1) ≡ some sized
unfolding pack_ptr pack_fields get_record meet write_record put_ptr_record copy put_word lookup
    insert
sized-knot = refl

size-pack_example :
    (q : Serdes) × (pack_ptr knot 3 (some 0) (acquire (packer 2) sized).0 ≡ some q)
    × (length q.written ≡ sized.current)
size-pack_example = size-pack knot 1 2 3 (some 0) sized (omega arith) sized-knot

unpack-pack_example :
    (z : Serdes) × (q : Serdes) × (pack_ptr knot 3 (some 0) (sizer 1) ≡ some z)
    × (pack_ptr knot 3 (some 0) (acquire (packer 2) z).0 ≡ some q)
    × ((rest : List ℕ)
        → (out : Option ℕ) × (u : Unpacker ℕ) × (unpack_ptr knot_forms 3
              (unpacker (q.written ++ rest))
            ≡ some (out, u))
          × (u.input ≡ rest)
          × IsCopy knot (some 0) u.objects out)
unpack-pack_example =
    unpack-pack knot_forms knot (some 0) 1 2 3 (omega arith) knot-IsFormed (omega arith)
      (omega arith)

abbrev ports : Assoc ℕ ℕ
ports = (3, 30) ∷ (4, 40) ∷ []

get_map-put_map_example : get_map (put_map ports ++ 9 ∷ []) ≡ some (ports, 9 ∷ [])
unfolding lookup
get_map-put_map_example =
    get_map-put_map ports (9 ∷ []) (omega arith) (refl, (refl, tt)) (omega arith)
