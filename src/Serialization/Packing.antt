-- ===== src/Serialization/Packing.antt =====
-- One step of the packing of a pointer, include/hypercomm/serialization/pup.hpp, by what the pass
-- has met.
use hypercomm.Base.{
  ℕ, suc, ◌≡◌, refl, ◌∙◌, true, false, List, none, some, arith, get_elem?, if◌then◌else◌, if_true,
  if_false, ◌>>=◌,
}
use hypercomm.Serialization.Containers.{Puper}
use hypercomm.Serialization.Records.{reference, an_instance, Serdes, copy, is_instance}
use hypercomm.Serialization.Meeting.{
  visited, Meeting, with_record, record_bytes, Meeting-write_record,
}
use hypercomm.Serialization.Pointers.{Object, pack_fields, pack_ptr}

-- The pass behind the record of an object.
abbrev pub announced : {a ty : ℕ} {s : Serdes} → Meeting a ty s → Serdes
announced {a} {ty} {s} m = copy (record_bytes m.rec) (with_record a m.rec s)

module _ {D : Type 0} ⦃p : Puper D⦄ (heap : List (Object D)) where
  module _ {a : ℕ} {o : Object D} {s : Serdes} (m : Meeting a o.ty s) where
    pack_ptr-step :
        (fuel : ℕ)
        → get_elem? heap a ≡ some o
        → pack_ptr heap (suc fuel) (some a) s ≡ (
            if is_instance m.rec
            then pack_fields heap (pack_ptr heap fuel) o.fields (announced m)
            else some (announced m))
    unfolding pack_ptr
    pack_ptr-step fuel e =
        rw (e, ◌>>=◌) (rw (m.runs, ◌>>=◌) (rw (Meeting-write_record m, ◌>>=◌) refl))

    pub pack_ptr-visited :
        (fuel : ℕ)
        → get_elem? heap a ≡ some o
        → visited s a ≡ true
        → pack_ptr heap (suc fuel) (some a) s ≡ some (announced m)
    pack_ptr-visited fuel e v =
        let k : m.rec.kind ≡ reference = m.turn ∙ if_true _ _ v in
        let known : is_instance m.rec ≡ false = ground arith in
        pack_ptr-step fuel e ∙ if_false _ _ known

    pub pack_ptr-new :
        (fuel : ℕ)
        → get_elem? heap a ≡ some o
        → visited s a ≡ false
        → pack_ptr heap (suc fuel) (some a) s
          ≡ pack_fields heap (pack_ptr heap fuel) o.fields (announced m)
    pack_ptr-new fuel e v =
        let k : m.rec.kind ≡ an_instance = m.turn ∙ if_false _ _ v in
        let new : is_instance m.rec ≡ true = ground arith in pack_ptr-step fuel e ∙ if_true _ _ new

  pub pack_ptr-dangling :
      (fuel a : ℕ) (s : Serdes)
      → get_elem? heap a ≡ none
      → pack_ptr heap (suc fuel) (some a) s ≡ none
  unfolding pack_ptr
  pack_ptr-dangling fuel a s e = rw (e, ◌>>=◌) refl
