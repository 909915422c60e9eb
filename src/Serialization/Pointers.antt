-- ===== src/Serialization/Pointers.antt =====
-- include/hypercomm/serialization/pup.hpp: the puper of shared pointers to polymorphs.
-- A heap lists the objects, a pointer is a position in it or null. `__pup__` of a polymorph pups
-- its fields one after the other, each a value or a shared pointer. `fields_of` says which, and
-- depends on the type alone, as the unpacked object is made from its type before it is filled.
use hypercomm.Base.{
  ℕ, zero, suc, List, [], ◌∷◌, ◌++◌, Option, none, some, length, get_elem?, set, nat_eq, Assoc,
  lookup, insert, if◌then◌else◌, is_some, ◌>>=◌,
}
use hypercomm.Serialization.Containers.{Puper}
use hypercomm.Serialization.Records.{
  invalid, ignored, deferred, reference, an_instance, is_instance, null_record, Serdes, copy,
  get_record, write_record, get_ptr_record,
}

pub data Field (D : Type 0) : Type 0 where
  value : D → Field D
  pointer : Option ℕ → Field D

pub record Object (D : Type 0) : Type 0 where
  pub ty : ℕ
  pub fields : List (Field D)

pub data Form : Type 0 where
  of_value : Form
  of_pointer : Form

-- An unpacker: the bytes ahead of `current`, the weak pointers by id, and the new objects. The
-- value that is unpacked holds them, so that no weak pointer has expired.
pub record Unpacker (D : Type 0) : Type 0 where
  pub input : List ℕ
  pub instances : Assoc ℕ ℕ
  pub objects : List (Object D)

abbrev pub unpacker : {D : Type 0} → List ℕ → Unpacker D
unpacker bytes = record { input = bytes; instances = []; objects = [] }

module _ {D : Type 0} ⦃p : Puper D⦄ where
  module _ (heap : List (Object D)) where
    -- `__pup__`; `pack` is the puper of the pointers.
    unfoldable pub pack_fields :
        (Option ℕ → Serdes → Option Serdes) → List (Field D) → Serdes → Option Serdes
    pack_fields pack [] s = some s
    pack_fields pack (value d ∷ fields) s = pack_fields pack fields (copy (p.put d) s)
    pack_fields pack (pointer a ∷ fields) s = pack a s >>= λ s'. pack_fields pack fields s'

    -- `pack_ptr`. Out of fuel, or at a pointer that leads nowhere: `none`.
    unfoldable pub pack_ptr : ℕ → Option ℕ → Serdes → Option Serdes
    pack_ptr zero a s = none
    pack_ptr (suc fuel) none s = write_record null_record s
    pack_ptr (suc fuel) (some a) s = get_elem? heap a >>= λ o. get_record a o.ty s >>= λ (rec, s1).
        write_record rec s1 >>= λ s2.
        if is_instance rec then pack_fields (pack_ptr fuel) o.fields s2 else some s2

  -- `put_instance`, with the assertion that the insertion took place.
  unfoldable pub put_instance : ℕ → ℕ → Unpacker D → Option (Unpacker D)
  put_instance id a u =
      if is_some (lookup id u.instances)
      then none
      else some (record u { instances = insert id a u.instances })

  -- `get_instance`: null for an id that is not there.
  abbrev pub get_instance : ℕ → Unpacker D → Option ℕ
  get_instance id u = lookup id u.instances

  -- `instantiate`: the new object is not filled yet.
  abbrev pub instantiate : ℕ → Unpacker D → ℕ × Unpacker D
  instantiate ty u =
      (length u.objects, record u { objects = u.objects ++ record { ty = ty; fields = [] } ∷ [] })

  -- The object is complete.
  abbrev pub fill : ℕ → ℕ → List (Field D) → Unpacker D → Unpacker D
  fill a ty fields u = record u { objects = set u.objects a (record { ty = ty; fields = fields }) }

  module _ (fields_of : ℕ → List Form) where
    -- `__pup__` of the new object; `unpack` is the puper of the pointers.
    unfoldable pub unpack_fields :
        (Unpacker D → Option (Option ℕ × Unpacker D))
        → List Form
        → Unpacker D
        → Option (List (Field D) × Unpacker D)
    unpack_fields unpack [] u = some ([], u)
    unpack_fields unpack (of_value ∷ forms) u = p.get u.input >>= λ (d, rest).
        unpack_fields unpack forms (record u { input = rest }) >>= λ (fields, u').
        some (value d ∷ fields, u')
    unpack_fields unpack (of_pointer ∷ forms) u = unpack u >>= λ (a, u1).
        unpack_fields unpack forms u1 >>= λ (fields, u'). some (pointer a ∷ fields, u')

    -- The `unpacking` branch of the puper; the other kinds are the abort on an unknown type.
    unfoldable pub unpack_ptr : ℕ → Unpacker D → Option (Option ℕ × Unpacker D)
    unpack_ptr zero u = none
    unpack_ptr (suc fuel) u = get_ptr_record u.input >>= λ (rec, rest).
        let u0 : Unpacker D = record u { input = rest } in
        elim rec.kind [
          | ignored ↦ some (none, u0)
          | reference ↦ some (get_instance rec.id u0, u0)
          | an_instance ↦
              let (a, u1) = instantiate rec.ty u0 in
              put_instance rec.id a u1 >>= λ u2.
              unpack_fields (unpack_ptr fuel) (fields_of rec.ty) u2 >>= λ (fields, u3).
              some (some a, fill a rec.ty fields u3)
          | invalid ↦ none
          | deferred ↦ none
        ]
