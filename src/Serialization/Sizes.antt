-- ===== src/Serialization/Sizes.antt =====
-- The sizing pass and the packing pass of include/hypercomm/serialization advance alike, as
-- `pack_deferrable_` of src/hypercomm/messaging/interceptor.cc asserts of them.
use hypercomm.Base.{
  ℕ, zero, suc, ◌≡◌, ◌≢◌, refl, subst, inl, inr, ap, sym, ◌∙◌, false, List, [], ◌∷◌, Option, none,
  some, arith, length, get_elem?, nat_eq, lookup, if◌then◌else◌, length-append, Option-cases,
  Bool-cases, ◌>>=◌,
}
use hypercomm.Serialization.Bytes.{word_size, put_word, length-put_word}
use hypercomm.Serialization.Containers.{Puper}
use hypercomm.Serialization.Records.{
  packing, PtrRecord, is_instance, null_record, Serdes, sizer, packer, copy, acquire, write_record,
  put_ptr_record,
}
use hypercomm.Serialization.Acquire.{acquired, acquired-Usable, acquired-unvisited}
use hypercomm.Serialization.Meeting.{
  visited, Usable, Meeting, with_record, get_record-Meeting, Meeting-Usable, visited-with_record,
  insert-cases, record_bytes,
}
use hypercomm.Serialization.Packing.{announced, pack_ptr-visited, pack_ptr-new, pack_ptr-dangling}
use hypercomm.Serialization.Pointers.{Field, value, pointer, Object, pack_fields, pack_ptr}

-- Every record of the pass is its own.
abbrev pub Owns : ℕ → Serdes → Type 0
Owns i s = (a : ℕ) (rec : PtrRecord) → lookup a s.records ≡ some rec → rec.progenitor ≡ some i

length-record_bytes : (r : PtrRecord) → length (record_bytes r) ≡ (if is_instance r then 17 else 9)
unfolding record_bytes
length-record_bytes r = ground (
  arith,
  length-put_word word_size r.id,
  length-put_word word_size r.ty,
  length-append (put_word word_size r.id) (put_word word_size r.ty),
)

same_length :
    (r t : PtrRecord) → r.kind ≡ t.kind → length (record_bytes r) ≡ length (record_bytes t)
same_length r t e = ground (arith, length-record_bytes r, length-record_bytes t, e)

module _ (i : ℕ) where
  -- Two passes at the same place that have met the same objects, the second one a packer, the first
  -- one with no records but its own.
  pub record Alike (z p : Serdes) : Type 0 where
    pub whose : z.ident ≡ i
    pub mine : Owns i z
    pub same : (a : ℕ) → visited z a ≡ visited p a
    pub level : z.current ≡ p.current
    pub packs : p.phase ≡ packing
    pub stands : length p.written ≡ p.current
    pub sizer_fits : Usable z
    pub packer_fits : Usable p

  abbrev pub Both : Option Serdes → Option Serdes → Type 0
  Both none none = Unit
  Both (some z) (some p) = Alike z p
  Both _ _ = ⊥

  Both->>= :
      (m m' : Option Serdes) (f g : Serdes → Option Serdes)
      → Both m m'
      → ((z p : Serdes) → Alike z p → Both (f z) (g p))
      → Both (m >>= f) (m' >>= g)
  Both->>= none none f g h k = tt
  Both->>= (some z) (some p) f g h k = k z p h
  Both->>= none (some p) f g h k = absurd h
  Both->>= (some z) none f g h k = absurd h

  copy-Alike :
      (b c : List ℕ) (z p : Serdes) → length b ≡ length c → Alike z p → Alike (copy b z) (copy c p)
  unfolding copy
  copy-Alike b c z p e h = record {
    whose = h.whose;
    mine = h.mine;
    same = h.same;
    level = omega (arith, h.level);
    packs = h.packs;
    stands = simp h.packs (omega (arith, length-append p.written c, h.stands));
    sizer_fits = h.sizer_fits;
    packer_fits = h.packer_fits;
  }

  Meeting-Alike :
      {a ty : ℕ} {z p : Serdes} (m : Meeting a ty z) (m' : Meeting a ty p)
      → Alike z p
      → Alike (with_record a m.rec z) (with_record a m'.rec p)
  Meeting-Alike {a} {ty} {z} {p} m m' h = record {
    whose = h.whose;
    mine = λ b rec e. elim (insert-cases a b m.rec rec z.records e) [
      | inl (_, same) ↦ rw (← same) (m.own ∙ ap some h.whose)
      | inr (_, old) ↦ h.mine b rec old
    ];
    same = λ b. simp (visited-with_record m b, visited-with_record m' b, h.same b);
    level = h.level;
    packs = h.packs;
    stands = h.stands;
    sizer_fits = Meeting-Usable m h.sizer_fits;
    packer_fits = Meeting-Usable m' h.packer_fits;
  }

  -- The two records are of one kind, and so take as many bytes.
  Meeting-kind :
      {a ty : ℕ} {z p : Serdes} (m : Meeting a ty z) (m' : Meeting a ty p)
      → Alike z p
      → m.rec.kind ≡ m'.rec.kind
  Meeting-kind {a} m m' h = simp (m.turn, m'.turn, h.same a)

  sizer-Usable : Usable (sizer i)
  unfolding lookup
  sizer-Usable a rec e = absurd (ground arith)

  Both-some :
      (m m' : Option Serdes) {z : Serdes}
      → m ≡ some z
      → Both m m'
      → (q : Serdes) × (m' ≡ some q) × Alike z q
  Both-some none m' e h = cc
  Both-some (some z') none e h = absurd h
  Both-some (some z') (some q) e h =
      let same : z' ≡ _ = cc in (q, refl, subst (λ y. Alike y q) same h)

  -- A sizer of its own address, that has met nothing.
  fresh-Alike :
      (q : Serdes)
      → q.phase ≡ packing
      → q.written ≡ []
      → q.current ≡ 0
      → Usable q
      → ((a : ℕ) → visited q a ≡ false)
      → Alike (sizer i) q
  unfolding lookup
  fresh-Alike q packs empty start u new = record {
    whose = refl;
    mine = λ a rec e. absurd (ground arith);
    same = λ a. sym (new a);
    level = sym start;
    packs = packs;
    stands = simp (empty, start);
    sizer_fits = sizer-Usable;
    packer_fits = u;
  }

  module _ {D : Type 0} ⦃p : Puper D⦄ (heap : List (Object D)) where
    pack_fields-Both :
        (pack : Option ℕ → Serdes → Option Serdes) (fields : List (Field D)) (z q : Serdes)
        → ((a : Option ℕ) (y r : Serdes) → Alike y r → Both (pack a y) (pack a r))
        → Alike z q
        → Both (pack_fields heap pack fields z) (pack_fields heap pack fields q)
    unfolding pack_fields
    pack_fields-Both pack [] z q k h = h
    pack_fields-Both pack (value d ∷ fields) z q k h =
        pack_fields-Both pack fields _ _ k (copy-Alike (p.put d) (p.put d) z q refl h)
    pack_fields-Both pack (pointer a ∷ fields) z q k h =
        Both->>= _ _ _ _ (k a z q h) (λ y r e. pack_fields-Both pack fields y r k e)

    null-Both :
        (z q : Serdes) → Alike z q → Both (write_record null_record z) (write_record null_record q)
    unfolding write_record put_ptr_record
    null-Both z q h = copy-Alike _ _ z q refl h

    met-Both :
        (fuel a : ℕ) (o : Object D) (z q : Serdes)
        → ((b : Option ℕ) (y r : Serdes)
            → Alike y r
            → Both (pack_ptr heap fuel b y) (pack_ptr heap fuel b r))
        → get_elem? heap a ≡ some o
        → Alike z q
        → Both (pack_ptr heap (suc fuel) (some a) z) (pack_ptr heap (suc fuel) (some a) q)
    met-Both fuel a o z q k e h =
        let m = get_record-Meeting a o.ty z h.sizer_fits in
        let m' = get_record-Meeting a o.ty q h.packer_fits in
        let level : Alike (announced m) (announced m') =
          copy-Alike _ _ _ _ (same_length m.rec m'.rec (Meeting-kind m m' h))
            (Meeting-Alike m m' h) in
        elim (Bool-cases (visited z a)) [
          | inl v ↦
              rw (pack_ptr-visited heap m fuel e v)
                (rw (pack_ptr-visited heap m' fuel e (sym (h.same a) ∙ v)) level)
          | inr v ↦ rw (pack_ptr-new heap m fuel e v) (
              rw (pack_ptr-new heap m' fuel e (sym (h.same a) ∙ v))
                (pack_fields-Both (pack_ptr heap fuel) o.fields _ _ k level))
        ]

    pack_ptr-Both :
        (fuel : ℕ) (a : Option ℕ) (z q : Serdes)
        → Alike z q
        → Both (pack_ptr heap fuel a z) (pack_ptr heap fuel a q)
    unfolding pack_ptr
    pack_ptr-Both zero a z q h = tt
    pack_ptr-Both (suc fuel) none z q h = null-Both z q h
    pack_ptr-Both (suc fuel) (some a) z q h = elim (Option-cases (get_elem? heap a)) [
      | inl e ↦ rw (pack_ptr-dangling heap fuel a z e) (rw (pack_ptr-dangling heap fuel a q e) tt)
      | inr (o, e) ↦ met-Both fuel a o z q (λ b y r. pack_ptr-Both fuel b y r) e h
    ]

module _ {D : Type 0} ⦃p : Puper D⦄ (heap : List (Object D)) where
  -- A sizer leaves records of its own only.
  pub sized-Owns :
      (i fuel : ℕ) (root : Option ℕ) (z : Serdes)
      → pack_ptr heap fuel root (sizer i) ≡ some z
      → Owns i z × Usable z
  unfolding lookup
  sized-Owns i fuel root z e =
      let (_, _, sized) = Both-some i _ _ e (
        pack_ptr-Both i heap fuel root (sizer i) (packer i)
          (fresh-Alike i (packer i) refl refl refl (sizer-Usable i) (λ a. refl))) in
      (sized.mine, sized.sizer_fits)

  -- Where the sizing pass returns, the packing pass that takes over its records returns as well,
  -- and it writes exactly as many bytes as the sizing pass counted. The passes have different
  -- addresses; the heap may have cycles and shared objects.
  pub size-pack :
      (i j fuel : ℕ) (root : Option ℕ) (z : Serdes)
      → i ≢ j
      → pack_ptr heap fuel root (sizer i) ≡ some z
      → (q : Serdes) × (pack_ptr heap fuel root (acquire (packer j) z).0 ≡ some q)
        × (length q.written ≡ z.current)
  unfolding lookup acquire
  size-pack i j fuel root z d e =
      let (own, usable) = sized-Owns i fuel root z e in
      let (q, runs, h) = Both-some i _ _ e (
        pack_ptr-Both i heap fuel root (sizer i) (acquired j z) (
          fresh-Alike i (acquired j z) refl refl refl (acquired-Usable j z usable)
            (λ a. acquired-unvisited j z i a d (λ rec f. own a rec f)))) in
      (q, runs, h.stands ∙ sym h.level)
