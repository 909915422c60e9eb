-- ===== src/Serialization/Meeting.antt =====
-- What `get_record` of include/hypercomm/serialization/serdes.hpp gives a pass, and the bytes that
-- follow from it.
use hypercomm.Base.{
  ℕ, ◌+◌, ◌≡◌, refl, ◌∙◌, ◌⊎◌, inl, inr, Bool, true, false, List, ◌∷◌, ◌++◌, none, some, arith,
  length, nat_beq, nat_beq_iff, nat_eq, ◌==◌, ==_sound, subst, Assoc, lookup, insert, lookup-insert,
  if◌then◌else◌, if_true, if_false, Bool-cases, Option-cases,
}
use hypercomm.Serialization.Bytes.{word_size, put_word}
use hypercomm.Serialization.Records.{
  reference, an_instance, PtrRecord, is_instance, Serdes, first_record, copy, meet, get_record,
  put_ptr_record, write_record,
}

-- The progenitor is the pass itself.
abbrev pub owned : ℕ → PtrRecord → Bool
owned ident rec = elim rec.progenitor [ none ↦ false | some origin ↦ nat_beq ident origin ]

-- This pass has met the object.
abbrev pub visited : Serdes → ℕ → Bool
visited s a = elim (lookup a s.records) [ none ↦ false | some rec ↦ owned s.ident rec ]

-- A record that a pass can meet again.
pub record Fit (rec : PtrRecord) : Type 0 where
  pub origin : ℕ
  pub named : rec.progenitor ≡ some origin
  pub known : (rec.kind ≡ an_instance) ⊎ (rec.kind ≡ reference)

abbrev pub Usable : Serdes → Type 0
Usable s = (a : ℕ) (rec : PtrRecord) → lookup a s.records ≡ some rec → Fit rec

abbrev pub with_record : ℕ → PtrRecord → Serdes → Serdes
with_record a rec s = record s { records = insert a rec s.records }

-- The outcome of `get_record`.
pub record Meeting (a ty : ℕ) (s : Serdes) : Type 0 where
  pub rec : PtrRecord
  pub runs : get_record a ty s ≡ some (rec, with_record a rec s)
  pub own : rec.progenitor ≡ some s.ident
  pub turn : rec.kind ≡ (if visited s a then reference else an_instance)
  pub keeps :
      (old : PtrRecord) → lookup a s.records ≡ some old → (rec.id ≡ old.id) × (rec.ty ≡ old.ty)
  pub starts : lookup a s.records ≡ none → (rec.id ≡ length s.records + 1) × (rec.ty ≡ ty)

-- The record that `meet` leaves.
abbrev met : ℕ → PtrRecord → Bool → PtrRecord
met ident old true = record old { kind = reference }
met ident old false = record old { progenitor = some ident; kind = an_instance }

meet_own :
    (ident : ℕ) (old : PtrRecord)
    → Fit old
    → owned ident old ≡ true
    → meet ident old ≡ some (met ident old true)
unfolding meet
meet_own ident old f h = ground arith

meet_foreign :
    (ident : ℕ) (old : PtrRecord)
    → Fit old
    → owned ident old ≡ false
    → meet ident old ≡ some (met ident old false)
unfolding meet
meet_foreign ident old f h = ground arith

met-Meeting :
    (a ty : ℕ) (s : Serdes) (old : PtrRecord) (mine : Bool)
    → Fit old
    → lookup a s.records ≡ some old
    → owned s.ident old ≡ mine
    → Meeting a ty s
unfolding get_record
met-Meeting a ty s old true f e h = record {
  rec = met s.ident old true;
  runs = rw (get_record, e) (simp (meet_own s.ident old f h));
  own = ground arith;
  turn = ground arith;
  keeps = λ other same. ground arith;
  starts = λ gone. cc;
}
met-Meeting a ty s old false f e h = record {
  rec = met s.ident old false;
  runs = rw (get_record, e) (simp (meet_foreign s.ident old f h));
  own = refl;
  turn = ground arith;
  keeps = λ other same. ground arith;
  starts = λ gone. cc;
}

pub get_record-Meeting : (a ty : ℕ) (s : Serdes) → Usable s → Meeting a ty s
unfolding get_record
get_record-Meeting a ty s u = elim (Option-cases (lookup a s.records)) [
  | inl e ↦ record {
    rec = first_record s ty;
    runs = rw (get_record, e) refl;
    own = refl;
    turn = ground arith;
    keeps = λ old same. cc;
    starts = λ _. (refl, refl);
  }
  | inr (old, e) ↦ met-Meeting a ty s old (owned s.ident old) (u a old e) e refl
]

-- A visited object is referred to, any other is announced.
Meeting-known :
    {a ty : ℕ} {s : Serdes} (m : Meeting a ty s)
    → (m.rec.kind ≡ an_instance) ⊎ (m.rec.kind ≡ reference)
Meeting-known {a} {ty} {s} m = elim (Bool-cases (visited s a)) [
  | inl old ↦ inr (m.turn ∙ if_true _ _ old)
  | inr new ↦ inl (m.turn ∙ if_false _ _ new)
]

-- An entry after an insertion is the new one or an old one.
pub insert-cases :
    {V : Type 0} (a b : ℕ) (v w : V) (entries : Assoc ℕ V)
    → lookup b (insert a v entries) ≡ some w
    → ((a ≡ b) × (v ≡ w)) ⊎ (((a == b) ≡ false) × (lookup b entries ≡ some w))
insert-cases a b v w entries h = elim (Bool-cases (a == b)) [
  | inl same ↦ inl (==_sound a b same, ground (arith, lookup-insert a b v entries))
  | inr other ↦ inr (other, ground (arith, lookup-insert a b v entries))
]

pub Meeting-Usable :
    {a ty : ℕ} {s : Serdes} (m : Meeting a ty s) → Usable s → Usable (with_record a m.rec s)
Meeting-Usable {a} {ty} {s} m u b rec e = elim (insert-cases a b m.rec rec s.records e) [
  | inl (_, same) ↦
      let fit : Fit m.rec = record { origin = s.ident; named = m.own; known = Meeting-known m } in
      subst Fit same fit
  | inr (_, old) ↦ u b rec old
]

pub visited-with_record :
    {a ty : ℕ} {s : Serdes} (m : Meeting a ty s) (b : ℕ)
    → visited (with_record a m.rec s) b ≡ (if a == b then true else visited s b)
visited-with_record {a} {ty} {s} m b =
    ground (arith, lookup-insert a b m.rec s.records, m.own, nat_beq_iff s.ident s.ident)

-- The bytes of the record of a meeting.
unfoldable pub record_bytes : PtrRecord → List ℕ
record_bytes rec =
    if is_instance rec
    then 4 ∷ put_word word_size rec.id ++ put_word word_size rec.ty
    else 3 ∷ put_word word_size rec.id

pub Meeting-write_record :
    {a ty : ℕ} {s : Serdes} (m : Meeting a ty s) (t : Serdes)
    → write_record m.rec t ≡ some (copy (record_bytes m.rec) t)
unfolding write_record put_ptr_record record_bytes
Meeting-write_record m t = elim (Meeting-known m) [ inl k ↦ ground arith | inr k ↦ ground arith ]
