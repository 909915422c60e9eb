-- ===== src/Serialization/Sync.antt =====
-- How an unpacker follows a packer of include/hypercomm/serialization/serdes.hpp: the objects that
-- the packer has met are the instances of the unpacker, by their ids.
use hypercomm.Base.{
  ℕ, suc, ◌<◌, ◌≡◌, ◌≢◌, refl, sym, ap, subst, ◌∙◌, inl, inr, Bool, true, false, List, none, some,
  arith, nat_eq, ◌==◌, Assoc, ==_sound, nat_beq_iff, lookup, insert, lookup-insert,
  lookup-insert_self, if_false, Option-cases, Bool-cases, ne→==,
}
use hypercomm.Serialization.Records.{PtrRecord, Serdes, copy}
use hypercomm.Serialization.Meeting.{visited, owned, Meeting, insert-cases, visited-with_record}
use hypercomm.Serialization.Packing.{announced}
use hypercomm.Serialization.Pointers.{Object}
use hypercomm.Serialization.Sound.{IsSound, Meeting-id}

-- The record by which the pass of that address knows an object.
pub record EntryIn (ident : ℕ) (records : Assoc ℕ PtrRecord) (a : ℕ) : Type 0 where
  pub rec : PtrRecord
  pub found : lookup a records ≡ some rec
  pub mine : owned ident rec ≡ true

-- The unpacked object of an object is at `b`.
pub record PlaceIn (ident : ℕ) (records : Assoc ℕ PtrRecord) (instances : Assoc ℕ ℕ) (a b : ℕ)
    : Type 0 where
  pub entry : EntryIn ident records a
  pub known : lookup entry.rec.id instances ≡ some b

abbrev pub Entry : Serdes → ℕ → Type 0
Entry s a = EntryIn s.ident s.records a

abbrev pub Place : Serdes → Assoc ℕ ℕ → ℕ → ℕ → Type 0
Place s instances a b = PlaceIn s.ident s.records instances a b

abbrev visited_in : ℕ → Assoc ℕ PtrRecord → ℕ → Bool
visited_in ident records a = elim (lookup a records) [ none ↦ false | some rec ↦ owned ident rec ]

-- The instances, among `n` unpacked objects, are those of the objects that the packer has met.
pub record SyncIn (ident : ℕ) (records : Assoc ℕ PtrRecord) (instances : Assoc ℕ ℕ) (n : ℕ)
    : Type 0 where
  pub here :
      (a : ℕ) → visited_in ident records a ≡ true → (b : ℕ) × PlaceIn ident records instances a b
  pub back :
      (i b : ℕ)
      → lookup i instances ≡ some b
      → (a : ℕ) × (e : EntryIn ident records a) × (e.rec.id ≡ i) × (b < n)
  pub one : (i j b : ℕ) → lookup i instances ≡ some b → lookup j instances ≡ some b → i ≡ j

abbrev pub Sync : Serdes → Assoc ℕ ℕ → ℕ → Type 0
Sync s instances n = SyncIn s.ident s.records instances n

pub visited-Entry : (s : Serdes) (a : ℕ) → visited s a ≡ true → Entry s a
visited-Entry s a v = elim (Option-cases (lookup a s.records)) [
  | inl e ↦ absurd (ground arith)
  | inr (rec, e) ↦ record { rec = rec; found = e; mine = ground arith }
]

pub Entry-visited : (s : Serdes) (a : ℕ) → Entry s a → visited s a ≡ true
Entry-visited s a e = ground (arith, e.found, e.mine)

Entry-eq :
    {ident : ℕ} {records : Assoc ℕ PtrRecord} {a : ℕ} (e f : EntryIn ident records a)
    → e.rec ≡ f.rec
Entry-eq e f = let same : some e.rec ≡ some f.rec = sym e.found ∙ f.found in cc

-- An object has one place, and a place is that of one object.
pub Place-functional :
    {ident : ℕ} {records : Assoc ℕ PtrRecord} {instances : Assoc ℕ ℕ} {a b c : ℕ}
    → PlaceIn ident records instances a b
    → PlaceIn ident records instances a c
    → b ≡ c
Place-functional {instances} {b} {c} x y =
    let same = ap (λ r. lookup r.id instances) (Entry-eq x.entry y.entry) in
    let both : some b ≡ some c = sym x.known ∙ same ∙ y.known in cc

pub Place-injective :
    {D : Type 0} (heap : List (Object D)) {s : Serdes} {instances : Assoc ℕ ℕ} {n a c b : ℕ}
    → IsSound heap s
    → Sync s instances n
    → Place s instances a b
    → Place s instances c b
    → a ≡ c
Place-injective heap {a} {c} {b} h y x z =
    h.distinct a c x.entry.rec z.entry.rec x.entry.found z.entry.found
      (y.one x.entry.rec.id z.entry.rec.id b x.known z.known)

pub Place-lt :
    {ident : ℕ} {records : Assoc ℕ PtrRecord} {instances : Assoc ℕ ℕ} {n a b : ℕ}
    → SyncIn ident records instances n
    → PlaceIn ident records instances a b
    → b < n
Place-lt {b} y x = (y.back x.entry.rec.id b x.known).3

module _ {a ty : ℕ} {s : Serdes} (m : Meeting a ty s) where
  entry_here : Entry (announced m) a
  unfolding copy
  entry_here = record {
    rec = m.rec;
    found = lookup-insert_self a m.rec s.records;
    mine = ground (arith, m.own, nat_beq_iff s.ident s.ident);
  }

  -- The other entries stay.
  entry_there : (b : ℕ) → (a == b) ≡ false → Entry s b → Entry (announced m) b
  unfolding copy
  entry_there b other e = record {
    rec = e.rec;
    found = lookup-insert a b m.rec s.records ∙ if_false _ _ other ∙ e.found;
    mine = e.mine;
  }

  -- An entry stays, with its id.
  entry_stays : (b : ℕ) (e : Entry s b) → (f : Entry (announced m) b) × (f.rec.id ≡ e.rec.id)
  unfolding entry_here entry_there
  entry_stays b e = elim (Bool-cases (a == b)) [
    | inl same ↦
        let at = ==_sound a b same in
        subst (λ c. (e : Entry s c) → (f : Entry (announced m) c) × (f.rec.id ≡ e.rec.id)) at
          (λ e'. (entry_here, (m.keeps e'.rec e'.found).0)) e
    | inr other ↦ (entry_there b other e, refl)
  ]

  pub Place-announced :
      {instances : Assoc ℕ ℕ} (b c : ℕ) → Place s instances b c → Place (announced m) instances b c
  Place-announced {instances} b c x =
      let (f, same) = entry_stays b x.entry in
      record { entry = f; known = ap (λ i. lookup i instances) same ∙ x.known }

  -- A reference changes nothing for the unpacker.
  pub again-Sync :
      {instances : Assoc ℕ ℕ} {n : ℕ}
      → visited s a ≡ true
      → Sync s instances n
      → Sync (announced m) instances n
  unfolding copy
  again-Sync {instances} v y = record {
    here = λ b w.
        let (c, x) = y.here b (ground (arith, visited-with_record m b, nat_beq_iff a b)) in
        (c, Place-announced b c x);
    back = λ i b f.
        let (c, e, id, lt) = y.back i b f in
        let (e', same) = entry_stays c e in (c, e', same ∙ id, lt);
    one = y.one;
  }

module _ {D : Type 0} (heap : List (Object D)) {a : ℕ} (o : Object D) {s : Serdes}
    (m : Meeting a o.ty s) where
  module _ {instances : Assoc ℕ ℕ} {n : ℕ} (sound : IsSound heap s) (sync : Sync s instances n)
      (new : visited s a ≡ false) where
    -- The id of an object that is announced is new to the unpacker.
    pub fresh_id : lookup m.rec.id instances ≡ none
    fresh_id = elim (Option-cases (lookup m.rec.id instances)) [
      | inl e ↦ e
      | inr (c, e) ↦
          let (b, f, id, _) = sync.back m.rec.id c e in
          let same = Meeting-id heap o m b f.rec sound f.found (sym id) in
          let seen : visited s a ≡ true =
            subst (λ x. visited s x ≡ true) (sym same) (Entry-visited s b f) in
          cc
    ]

    pub Place-here : Place (announced m) (insert m.rec.id n instances) a n
    unfolding entry_here
    Place-here = record { entry = entry_here m; known = lookup-insert_self m.rec.id n instances }

    -- The places stay.
    pub Place-there :
        (b c : ℕ) → Place s instances b c → Place (announced m) (insert m.rec.id n instances) b c
    Place-there b c x =
        let (f, same) = entry_stays m b x.entry in
        let other : m.rec.id ≢ x.entry.rec.id =
          λ e. let gone = ap (λ i. lookup i instances) (sym e) in cc (fresh_id, x.known, gone) in
        record {
          entry = f;
          known =
              ap (λ i. lookup i (insert m.rec.id n instances)) same
              ∙ lookup-insert m.rec.id x.entry.rec.id n instances
              ∙ if_false _ _ (ne→== m.rec.id x.entry.rec.id other)
              ∙ x.known;
        }

    announced_one :
        (i j b : ℕ)
        → lookup i (insert m.rec.id n instances) ≡ some b
        → lookup j (insert m.rec.id n instances) ≡ some b
        → i ≡ j
    announced_one i j b f g = elim (insert-cases m.rec.id i n b instances f) [
      | inl (i_new, at) ↦ elim (insert-cases m.rec.id j n b instances g) [
        | inl (j_new, _) ↦ sym i_new ∙ j_new
        | inr (_, old) ↦ absurd (omega (arith, (sync.back j b old).3))
      ]
      | inr (_, old) ↦ elim (insert-cases m.rec.id j n b instances g) [
        | inl (j_new, at) ↦ absurd (omega (arith, (sync.back i b old).3))
        | inr (_, old') ↦ sync.one i j b old old'
      ]
    ]

    pub new-Sync : Sync (announced m) (insert m.rec.id n instances) (suc n)
    unfolding entry_here copy
    new-Sync = record {
      here = λ b w. elim (Bool-cases (a == b)) [
        | inl same ↦ (
          n,
          subst (λ c. Place (announced m) (insert m.rec.id n instances) c n) (==_sound a b same)
              Place-here,
        )
        | inr other ↦
            let was : visited s b ≡ true =
              sym (if_false _ _ other) ∙ sym (visited-with_record m b) ∙ w in
            let (c, x) = sync.here b was in (c, Place-there b c x)
      ];
      back = λ i b f. elim (insert-cases m.rec.id i n b instances f) [
        | inl (id, at) ↦ (a, entry_here m, id, omega arith)
        | inr (_, old) ↦
            let (c, e, id, lt) = sync.back i b old in
            let (e', same) = entry_stays m c e in (c, e', same ∙ id, omega arith)
      ];
      one = announced_one;
    }
