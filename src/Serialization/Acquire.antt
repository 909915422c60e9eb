-- ===== src/Serialization/Acquire.antt =====
-- `acquire` of include/hypercomm/serialization/serdes.hpp: a pass takes over the records of another.
use hypercomm.Base.{
  ℕ, suc, ◌+◌, ◌≡◌, refl, sym, ◌∙◌, ◌≢◌, inl, inr, false, List, [], ◌∷◌, Option, none, some, arith,
  length, nat_beq_iff, nat_eq, ◌==◌, Assoc, lookup, emplace, lookup-insert, Option-cases,
  Bool-cases, if◌then◌else◌, if_true, if_false, ==_refl, ==_sound, ap, not, is_some, tally,
  tally-congruent,
}
use hypercomm.Serialization.Records.{PtrRecord, Serdes, packer, emplace_all, acquire}
use hypercomm.Serialization.Pointers.{Object}
use hypercomm.Serialization.Sound.{Keyed, IsSound, unknown, length-insert_fresh, insert-Keyed}
use hypercomm.Serialization.Meeting.{Usable, visited}

-- The first of two values.
abbrev first {ℓ} : {A : Type ℓ} → Option A → Option A → Option A
first none o = o
first (some a) o = some a

lookup-emplace :
    (a b : ℕ) (rec : PtrRecord) (records : Assoc ℕ PtrRecord)
    → lookup b (emplace a rec records)
      ≡ first (lookup b records) (if a == b then some rec else none)
lookup-emplace a b rec records = elim (Option-cases (lookup a records)) [
  | inl e ↦ rw (emplace, e) (ground (arith, lookup-insert a b rec records, e, nat_beq_iff a b))
  | inr (old, e) ↦ rw (emplace, e) (ground (arith, e, nat_beq_iff a b))
]

lookup-emplace_all :
    (a : ℕ) (entries records : Assoc ℕ PtrRecord)
    → lookup a (emplace_all entries records) ≡ first (lookup a records) (lookup a entries)
unfolding lookup emplace_all
lookup-emplace_all a [] records = ground arith
lookup-emplace_all a ((k, rec) ∷ entries) records =
    ground
      (arith, lookup-emplace_all a entries (emplace k rec records), lookup-emplace k a rec records)

-- A new packer after `acquire`.
abbrev pub acquired : ℕ → Serdes → Serdes
acquired j z = (acquire (packer j) z).0

module _ (j : ℕ) (z : Serdes) where
  pub lookup-acquired : (a : ℕ) → lookup a (acquired j z).records ≡ lookup a z.records
  unfolding acquire lookup
  lookup-acquired a = lookup-emplace_all a z.records []

  pub acquired-Usable : Usable z → Usable (acquired j z)
  acquired-Usable u a rec e = u a rec (sym (lookup-acquired a) ∙ e)

  -- To the new pass all objects are new.
  pub acquired-unvisited :
      (i a : ℕ)
      → i ≢ j
      → ((rec : PtrRecord) → lookup a z.records ≡ some rec → rec.progenitor ≡ some i)
      → visited (acquired j z) a ≡ false
  unfolding acquire
  acquired-unvisited i a d own = elim (Option-cases (lookup a z.records)) [
    | inl e ↦ ground (arith, lookup-acquired a, e)
    | inr (rec, e) ↦ ground (arith, lookup-acquired a, e, own rec e, nat_beq_iff j i, d)
  ]

length-emplace :
    (k : ℕ) (rec : PtrRecord) (records : Assoc ℕ PtrRecord)
    → lookup k records ≡ none
    → length (emplace k rec records) ≡ suc (length records)
length-emplace k rec records h = rw (emplace, h) (length-insert_fresh k rec records h)

emplace_apart :
    (k : ℕ) (rec : PtrRecord) (entries records : Assoc ℕ PtrRecord)
    → lookup k entries ≡ none
    → ((a : ℕ) (r : PtrRecord) → lookup a ((k, rec) ∷ entries) ≡ some r → lookup a records ≡ none)
    → (a : ℕ) (r : PtrRecord) → lookup a entries ≡ some r
    → lookup a (emplace k rec records) ≡ none
unfolding lookup
emplace_apart k rec entries records new apart a r f = elim (Bool-cases (k == a)) [
  | inl same ↦ let at = ap (λ j. lookup j entries) (==_sound k a same) in cc
  | inr other ↦
      let absent = apart a r (if_false _ _ other ∙ f) in
      lookup-emplace k a rec records ∙ ground (arith, absent, other)
]

length-emplace_all :
    (entries records : Assoc ℕ PtrRecord)
    → Keyed entries
    → ((a : ℕ) (rec : PtrRecord) → lookup a entries ≡ some rec → lookup a records ≡ none)
    → length (emplace_all entries records) ≡ length entries + length records
unfolding lookup emplace_all
length-emplace_all [] records h apart = omega arith
length-emplace_all ((k, rec) ∷ entries) records (new, h) apart =
    let absent : lookup k records ≡ none = apart k rec (if_true _ _ (==_refl k)) in
    let more =
      length-emplace_all entries (emplace k rec records) h
        (emplace_apart k rec entries records new apart) in
    omega (arith, more, length-emplace k rec records absent)

emplace-Keyed :
    (a : ℕ) (rec : PtrRecord) (records : Assoc ℕ PtrRecord)
    → Keyed records
    → Keyed (emplace a rec records)
emplace-Keyed a rec records k = elim (Option-cases (lookup a records)) [
  | inl e ↦ rw (emplace, e) (insert-Keyed a rec records k)
  | inr (old, e) ↦ rw (emplace, e) k
]

emplace_all-Keyed :
    (entries records : Assoc ℕ PtrRecord) → Keyed records → Keyed (emplace_all entries records)
unfolding emplace_all
emplace_all-Keyed [] records k = k
emplace_all-Keyed ((a, rec) ∷ entries) records k =
    emplace_all-Keyed entries (emplace a rec records) (emplace-Keyed a rec records k)

module _ {D : Type 0} (heap : List (Object D)) (j : ℕ) (z : Serdes) (h : IsSound heap z) where
  length-acquired : length (acquired j z).records ≡ length z.records
  unfolding acquire lookup
  length-acquired = omega (arith, length-emplace_all z.records [] h.keyed (λ a rec e. refl))

  same_unknown : tally (unknown (acquired j z)) (length heap) ≡ tally (unknown z) (length heap)
  same_unknown =
      tally-congruent (unknown (acquired j z)) (unknown z)
        (λ a. ap (λ o. not (is_some o)) (lookup-acquired j z a)) (length heap)

  -- The new packer is as sound as the pass that had the records.
  pub acquired-IsSound : IsSound heap (acquired j z)
  unfolding acquire
  acquired-IsSound = record {
    keyed = emplace_all-Keyed z.records [] tt;
    usable = acquired-Usable j z h.usable;
    typed = λ a rec o e g. h.typed a rec o (sym (lookup-acquired j z a) ∙ e) g;
    distinct = λ a b r t e f same.
        h.distinct a b r t (sym (lookup-acquired j z a) ∙ e) (sym (lookup-acquired j z b) ∙ f) same;
    bounded = λ a rec e.
        omega (arith, length-acquired, h.bounded a rec (sym (lookup-acquired j z a) ∙ e));
    room = omega (arith, length-acquired, same_unknown, h.room);
  }
