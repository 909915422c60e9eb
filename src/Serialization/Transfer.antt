-- ===== src/Serialization/Transfer.antt =====
-- Sizing, packing and unpacking together: include/hypercomm/serialization, in the order of
-- `pack_deferrable_` of src/hypercomm/messaging/interceptor.cc.
use hypercomm.Base.{
  ℕ, ◌<◌, ◌≡◌, ◌≢◌, refl, ap, ◌∙◌, false, not, List, [], ◌∷◌, ◌++◌, Option, none, some, arith,
  length, get_elem?, nat_eq, Assoc, lookup, if◌then◌else◌, if_true, inl, inr, Option-cases, ◌>>=◌,
  tally-le,
}
use hypercomm.Serialization.Containers.{Puper}
use hypercomm.Serialization.Records.{packing, Serdes, sizer, packer, acquire}
use hypercomm.Serialization.Meeting.{visited, owned}
use hypercomm.Serialization.Pointers.{
  Field, value, pointer, Object, Form, Unpacker, unpacker, pack_ptr, unpack_ptr,
}
use hypercomm.Serialization.Sound.{IsSound, unknown}
use hypercomm.Serialization.Sync.{Place, Sync, Place-injective}
use hypercomm.Serialization.Images.{PointerImage, FieldsImage}
use hypercomm.Serialization.Passes.{Leads, IsFormed}
use hypercomm.Serialization.RoundTrip.{pack_ptr-Passes}
use hypercomm.Serialization.Acquire.{acquired, acquired-IsSound, acquired-unvisited}
use hypercomm.Serialization.Sizes.{sized-Owns}

-- Null goes to null, an address where `address` says.
abbrev pub PointerBy : (ℕ → Option ℕ) → Option ℕ → Option ℕ → Type 0
PointerBy address none none = Unit
PointerBy address (some a) (some b) = address a ≡ some b
PointerBy address _ _ = ⊥

-- The places as a function.
address_in : Serdes → Assoc ℕ ℕ → ℕ → Option ℕ
address_in s instances a =
    lookup a s.records >>= λ rec. if owned s.ident rec then lookup rec.id instances else none

module _ (s : Serdes) (instances : Assoc ℕ ℕ) where
  address_in-Place : (a b : ℕ) → Place s instances a b → address_in s instances a ≡ some b
  unfolding address_in
  address_in-Place a b x = rw (x.entry.found, ◌>>=◌) (if_true _ _ x.entry.mine ∙ x.known)

  Place-address_in : (a b : ℕ) → address_in s instances a ≡ some b → Place s instances a b
  unfolding address_in
  Place-address_in a b e = elim (Option-cases (lookup a s.records)) [
    | inl f ↦ absurd (ground arith)
    | inr (rec, f) ↦ record {
      entry = record { rec = rec; found = f; mine = ground arith };
      known = ground arith;
    }
  ]

  PointerBy-Image :
      (a b : Option ℕ) → PointerImage s instances a b → PointerBy (address_in s instances) a b
  PointerBy-Image none none h = tt
  PointerBy-Image (some a) (some b) h = address_in-Place a b h
  PointerBy-Image none (some b) h = h
  PointerBy-Image (some a) none h = h

module _ {D : Type 0} where
  abbrev pub FieldsBy : (ℕ → Option ℕ) → List (Field D) → List (Field D) → Type 0
  FieldsBy address [] [] = Unit
  FieldsBy address (value d ∷ fs) (value e ∷ gs) = (d ≡ e) × FieldsBy address fs gs
  FieldsBy address (pointer a ∷ fs) (pointer b ∷ gs) =
      PointerBy address a b × FieldsBy address fs gs
  FieldsBy address _ _ = ⊥

  abbrev pub ObjectBy : (ℕ → Option ℕ) → List (Object D) → List (Object D) → ℕ → ℕ → Type 0
  ObjectBy address heap objects a b =
      (o : Object D) × (o' : Object D) × (get_elem? heap a ≡ some o)
      × (get_elem? objects b ≡ some o')
      × (o'.ty ≡ o.ty)
      × FieldsBy address o.fields o'.fields

  -- The part of the heap that `root` reaches, renamed: `address` takes an object to its copy,
  -- distinct objects to distinct copies, and the pointers of an object to those of its copy.
  pub record IsCopy (heap : List (Object D)) (root : Option ℕ) (objects : List (Object D))
      (out : Option ℕ) : Type 0 where
    pub address : ℕ → Option ℕ
    pub rooted : PointerBy address root out
    pub injective : (a b c : ℕ) → address a ≡ some c → address b ≡ some c → a ≡ b
    pub copies : (a b : ℕ) → address a ≡ some b → ObjectBy address heap objects a b

  module _ (s : Serdes) (instances : Assoc ℕ ℕ) where
    FieldsBy-Image :
        (fs gs : List (Field D))
        → FieldsImage s instances fs gs
        → FieldsBy (address_in s instances) fs gs
    FieldsBy-Image [] [] h = tt
    FieldsBy-Image (value d ∷ fs) (value e ∷ gs) (same, h) = (same, FieldsBy-Image fs gs h)
    FieldsBy-Image (pointer a ∷ fs) (pointer b ∷ gs) (same, h) =
        (PointerBy-Image s instances a b same, FieldsBy-Image fs gs h)
    FieldsBy-Image [] (g ∷ gs) h = h
    FieldsBy-Image (value d ∷ fs) [] h = h
    FieldsBy-Image (pointer a ∷ fs) [] h = h
    FieldsBy-Image (value d ∷ fs) (pointer b ∷ gs) h = h.0
    FieldsBy-Image (pointer a ∷ fs) (value e ∷ gs) h = h.0

start-Sync : (s : Serdes) → ((a : ℕ) → visited s a ≡ false) → Sync s [] 0
unfolding lookup
start-Sync s new = record {
  here = λ a v. absurd (ground (arith, new a));
  back = λ i b e. absurd (ground arith);
  one = λ i j b e f. cc;
}

sizer-IsSound : {D : Type 0} (i : ℕ) (heap : List (Object D)) → IsSound heap (sizer i)
unfolding lookup
sizer-IsSound i heap = record {
  keyed = tt;
  usable = λ a rec e. absurd (ground arith);
  typed = λ a rec o e f. cc;
  distinct = λ a b r t e f same. cc;
  bounded = λ a rec e. absurd (ground arith);
  room = omega (arith, tally-le (unknown (sizer i)) (length heap));
}

module _ {D : Type 0} ⦃p : Puper D⦄ (fields_of : ℕ → List Form) (heap : List (Object D))
    (root : Option ℕ) where
  -- A pass that has met no object passes the heap to a new unpacker.
  copied :
      (fuel : ℕ) (s : Serdes)
      → IsFormed fields_of heap
      → Leads fields_of heap root
      → IsSound heap s
      → ((a : ℕ) → visited s a ≡ false)
      → length heap < fuel
      → s.phase ≡ packing
      → s.written ≡ []
      → (q : Serdes) × (pack_ptr heap fuel root s ≡ some q)
        × ((rest : List ℕ)
            → (out : Option ℕ) × (u : Unpacker D) × (unpack_ptr fields_of fuel
                  (unpacker (q.written ++ rest))
                ≡ some (out, u))
              × (u.input ≡ rest)
              × IsCopy heap root u.objects out)
  unfolding lookup
  copied fuel s well l h new enough k empty =
      let t =
        pack_ptr-Passes fields_of heap well fuel root s l h
          (omega (arith, tally-le (λ a. not (visited s a)) (length heap))) in
      let wrote : t.s'.written ≡ t.bytes = t.wrote k ∙ ap (λ w. w ++ t.bytes) empty in
      (
        t.s',
        t.packs,
        λ rest.
            let x =
              t.takes (unpacker (t.s'.written ++ rest)) rest (ap (λ w. w ++ rest) wrote)
                (start-Sync s new) in
            (
              x.out,
              x.u',
              x.runs,
              x.rests,
              record {
                address = address_in t.s' x.u'.instances;
                rooted = PointerBy-Image t.s' x.u'.instances root x.out x.good;
                injective = λ a b c e f.
                    Place-injective heap t.sound x.moved.sync
                      (Place-address_in t.s' x.u'.instances a c e)
                      (Place-address_in t.s' x.u'.instances b c f);
                copies = λ a b e.
                    let c =
                      x.moved.filled a b (new a) (Place-address_in t.s' x.u'.instances a b e) in
                    (
                      c.origin,
                      c.result,
                      c.packed,
                      c.unpacked,
                      c.type,
                      FieldsBy-Image t.s' x.u'.instances c.origin.fields c.result.fields c.fields,
                    );
              },
            ),
      )

  -- A heap of formed objects, fewer than 2 ^ 64, in which no pointer dangles, with fuel for more
  -- than its objects, and a root that is null or one of them: the sizing pass returns. A packing
  -- pass of another address that takes over its records returns, and an unpacking pass over the
  -- bytes written returns, stops behind them, and has made a copy of what the root reaches.
  -- Cycles and sharing stay, and distinct objects stay distinct.
  pub unpack-pack :
      (i j fuel : ℕ)
      → i ≢ j
      → IsFormed fields_of heap
      → Leads fields_of heap root
      → length heap < fuel
      → (z : Serdes) × (q : Serdes) × (pack_ptr heap fuel root (sizer i) ≡ some z)
        × (pack_ptr heap fuel root (acquire (packer j) z).0 ≡ some q)
        × ((rest : List ℕ)
            → (out : Option ℕ) × (u : Unpacker D) × (unpack_ptr fields_of fuel
                  (unpacker (q.written ++ rest))
                ≡ some (out, u))
              × (u.input ≡ rest)
              × IsCopy heap root u.objects out)
  unfolding acquire
  unpack-pack i j fuel d well l enough =
      let t =
        pack_ptr-Passes fields_of heap well fuel root (sizer i) l (sizer-IsSound i heap)
          (omega (arith, tally-le (λ a. not (visited (sizer i) a)) (length heap))) in
      let own = (sized-Owns heap i fuel root t.s' t.packs).0 in
      let (q, packs, back) =
        copied fuel (acquired j t.s') well l (acquired-IsSound heap j t.s' t.sound)
          (λ a. acquired-unvisited j t.s' i a d (λ rec e. own a rec e)) enough refl refl in
      (t.s', q, t.packs, packs, back)
