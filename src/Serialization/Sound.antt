-- ===== src/Serialization/Sound.antt =====
-- What a packer of include/hypercomm/serialization/serdes.hpp keeps while it packs a heap.
use hypercomm.Base.{
  ℕ, suc, ◌+◌, ◌≤◌, ◌≡◌, refl, sym, ap, subst, ◌∙◌, inl, inr, Bool, true, false, not, List, [], ◌∷◌,
  none, some, arith, length, get_elem?, nat_eq, ◌==◌, ==_sound, nat_beq_iff, lookup, insert,
  lookup-insert, Option-cases, is_some, lt-length_of_get_elem?, tally, tally-congruent, tally-clear,
  Assoc, Bool-cases,
}
use hypercomm.Serialization.Records.{PtrRecord, Serdes, copy}
use hypercomm.Serialization.Meeting.{
  visited, Usable, Meeting, with_record, insert-cases, Meeting-Usable, visited-with_record,
}
use hypercomm.Serialization.Packing.{announced}
use hypercomm.Serialization.Pointers.{Object}

pub length-insert_fresh :
    {V : Type 0} (a : ℕ) (v : V) (entries : Assoc ℕ V)
    → lookup a entries ≡ none
    → length (insert a v entries) ≡ suc (length entries)
unfolding lookup insert
length-insert_fresh a v [] h = refl
length-insert_fresh a v ((k, old) ∷ entries) h = ground (arith, length-insert_fresh a v entries)

length-insert_present :
    {V : Type 0} (a : ℕ) (v w : V) (entries : Assoc ℕ V)
    → lookup a entries ≡ some w
    → length (insert a v entries) ≡ length entries
unfolding lookup insert
length-insert_present a v w [] h = cc
length-insert_present a v w ((k, old) ∷ entries) h =
    ground (arith, length-insert_present a v w entries)

-- The keys of a table are distinct.
abbrev pub Keyed : Assoc ℕ PtrRecord → Type 0
Keyed [] = Unit
Keyed ((k, rec) ∷ entries) = (lookup k entries ≡ none) × Keyed entries

pub insert-Keyed :
    (a : ℕ) (rec : PtrRecord) (entries : Assoc ℕ PtrRecord)
    → Keyed entries
    → Keyed (insert a rec entries)
unfolding lookup insert
insert-Keyed a rec [] h = (refl, tt)
insert-Keyed a rec ((k, old) ∷ entries) (new, h) = elim (Bool-cases (k == a)) [
  | inl same ↦
      let at = ==_sound k a same in rw same (subst (λ j. lookup j entries ≡ none) at new, h)
  | inr other ↦ rw other (
    ground (arith, lookup-insert a k rec entries, nat_beq_iff a k, nat_beq_iff k a, new),
    insert-Keyed a rec entries h,
  )
]

abbrev pub unknown : Serdes → ℕ → Bool
unknown s a = not (is_some (lookup a s.records))

abbrev fresh : Serdes → ℕ → Bool
fresh s a = not (visited s a)

module _ {D : Type 0} (heap : List (Object D)) where
  -- How many objects the pass has not met.
  abbrev pub unvisited : Serdes → ℕ
  unvisited s = tally (fresh s) (length heap)

  -- The ids are distinct and at most the number of the records, which are at most the objects.
  pub record IsSound (s : Serdes) : Type 0 where
    pub keyed : Keyed s.records
    pub usable : Usable s
    pub typed :
        (a : ℕ) (rec : PtrRecord) (o : Object D)
        → lookup a s.records ≡ some rec
        → get_elem? heap a ≡ some o
        → rec.ty ≡ o.ty
    pub distinct :
        (a b : ℕ) (r t : PtrRecord)
        → lookup a s.records ≡ some r
        → lookup b s.records ≡ some t
        → r.id ≡ t.id
        → a ≡ b
    pub bounded :
        (a : ℕ) (rec : PtrRecord) → lookup a s.records ≡ some rec → rec.id ≤ length s.records
    pub room : length s.records + tally (unknown s) (length heap) ≤ length heap

  module _ {a : ℕ} (o : Object D) {s : Serdes} (m : Meeting a o.ty s) where
    pub unvisited-announced :
        get_elem? heap a ≡ some o
        → visited s a ≡ false
        → suc (unvisited (announced m)) ≡ unvisited s
    unfolding copy
    unvisited-announced e v =
        tally-clear (fresh s) (fresh (announced m)) a (λ b. ground (arith, visited-with_record m b))
          (ground arith) (length heap) (lt-length_of_get_elem? heap a o e)

    pub unvisited-again : visited s a ≡ true → unvisited (announced m) ≡ unvisited s
    unfolding copy
    unvisited-again v =
        tally-congruent (fresh (announced m)) (fresh s)
          (λ b. ground (arith, visited-with_record m b, nat_beq_iff a b)) (length heap)

    room-announced :
        get_elem? heap a ≡ some o
        → IsSound s
        → length (announced m).records + tally (unknown (announced m)) (length heap) ≤ length heap
    unfolding copy
    room-announced e h = elim (Option-cases (lookup a s.records)) [
      | inl new ↦
          let fewer : suc (tally (unknown (announced m)) (length heap))
              ≡ tally (unknown s) (length heap) =
            tally-clear (unknown s) (unknown (announced m)) a
              (λ b. ground (arith, lookup-insert a b m.rec s.records)) (ground arith) (length heap)
              (lt-length_of_get_elem? heap a o e) in
          omega (arith, h.room, fewer, length-insert_fresh a m.rec s.records new)
      | inr (old, known) ↦
          let even : tally (unknown (announced m)) (length heap) ≡ tally (unknown s) (length heap) =
            tally-congruent (unknown (announced m)) (unknown s)
              (λ b. ground (arith, lookup-insert a b m.rec s.records, nat_beq_iff a b))
              (length heap) in
          omega (arith, h.room, even, length-insert_present a m.rec old s.records known)
    ]

    -- The id of the record in the table before, or one that is new.
    pub Meeting-id :
        (b : ℕ) (t : PtrRecord) → IsSound s → lookup b s.records ≡ some t → m.rec.id ≡ t.id → a ≡ b
    Meeting-id b t h e same = elim (Option-cases (lookup a s.records)) [
      | inl new ↦ absurd (omega (arith, (m.starts new).0, h.bounded b t e, same))
      | inr (old, known) ↦ h.distinct a b old t known e (sym (m.keeps old known).0 ∙ same)
    ]

    pub Meeting-bounded : IsSound s → m.rec.id ≤ length (announced m).records
    unfolding copy
    Meeting-bounded h = elim (Option-cases (lookup a s.records)) [
      | inl new ↦ omega (arith, (m.starts new).0, length-insert_fresh a m.rec s.records new)
      | inr (old, known) ↦ omega (
        arith,
        (m.keeps old known).0,
        h.bounded a old known,
        length-insert_present a m.rec old s.records known,
      )
    ]

    pub Meeting-typed :
        IsSound s
        → (o' : Object D) → get_elem? heap a ≡ some o'
        → get_elem? heap a ≡ some o
        → m.rec.ty ≡ o'.ty
    Meeting-typed h o' e' e = elim (Option-cases (lookup a s.records)) [
      | inl new ↦ ground (arith, (m.starts new).1)
      | inr (old, known) ↦ (m.keeps old known).1 ∙ h.typed a old o' known e'
    ]

    length-le-announced : length s.records ≤ length (announced m).records
    unfolding copy
    length-le-announced = elim (Option-cases (lookup a s.records)) [
      | inl new ↦ omega (arith, length-insert_fresh a m.rec s.records new)
      | inr (old, known) ↦ omega (arith, length-insert_present a m.rec old s.records known)
    ]

    announced_distinct :
        IsSound s
        → (b c : ℕ) (r t : PtrRecord) → lookup b (with_record a m.rec s).records ≡ some r
        → lookup c (with_record a m.rec s).records ≡ some t
        → r.id ≡ t.id
        → b ≡ c
    announced_distinct h b c r t f g k = elim (insert-cases a b m.rec r s.records f) [
      | inl (b_here, r_new) ↦ elim (insert-cases a c m.rec t s.records g) [
        | inl (c_here, _) ↦ sym b_here ∙ c_here
        | inr (_, t_old) ↦ sym b_here ∙ Meeting-id c t h t_old (ap (λ x. x.id) r_new ∙ k)
      ]
      | inr (_, r_old) ↦ elim (insert-cases a c m.rec t s.records g) [
        | inl (c_here, t_new) ↦ sym (Meeting-id b r h r_old (ap (λ x. x.id) t_new ∙ sym k)) ∙ c_here
        | inr (_, t_old) ↦ h.distinct b c r t r_old t_old k
      ]
    ]

    pub announced-IsSound : get_elem? heap a ≡ some o → IsSound s → IsSound (announced m)
    unfolding copy
    announced-IsSound e h = record {
      keyed = insert-Keyed a m.rec s.records h.keyed;
      usable = Meeting-Usable m h.usable;
      typed = λ b rec o' f g. elim (insert-cases a b m.rec rec s.records f) [
        | inl (here, same) ↦
            rw (← same)
              (Meeting-typed h o' (subst (λ c. get_elem? heap c ≡ some o') (sym here) g) e)
        | inr (_, old) ↦ h.typed b rec o' old g
      ];
      distinct = announced_distinct h;
      bounded = λ b rec f. elim (insert-cases a b m.rec rec s.records f) [
        | inl (here, same) ↦ rw (← same) (Meeting-bounded h)
        | inr (_, old) ↦ omega (arith, h.bounded b rec old, length-le-announced)
      ];
      room = room-announced e h;
    }
