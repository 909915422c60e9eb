-- ===== src/Serialization/Images.antt =====
-- What it means that unpacked objects are those of a packed heap.
use hypercomm.Base.{
  ℕ, ◌≡◌, inl, inr, subst, true, false, List, [], ◌∷◌, Option, none, some, arith, length, get_elem?,
  nat_eq, Assoc, Bool-cases,
}
use hypercomm.Serialization.Records.{Serdes}
use hypercomm.Serialization.Meeting.{visited}
use hypercomm.Serialization.Pointers.{
  Field, value, pointer, Object, Form, of_value, of_pointer, Unpacker,
}
use hypercomm.Serialization.Sync.{Place, Sync, Place-functional, Entry-visited}

abbrev pub form : {D : Type 0} → Field D → Form
form (value d) = of_value
form (pointer a) = of_pointer

-- A pointer of the packed heap and one of the unpacked objects.
abbrev pub PointerImage : Serdes → Assoc ℕ ℕ → Option ℕ → Option ℕ → Type 0
PointerImage s instances none none = Unit
PointerImage s instances (some a) (some b) = Place s instances a b
PointerImage s instances _ _ = ⊥

-- The places of one pair of passes are those of the other.
abbrev pub Grows : Serdes → Assoc ℕ ℕ → Serdes → Assoc ℕ ℕ → Type 0
Grows s instances s' instances' = (a b : ℕ) → Place s instances a b → Place s' instances' a b

module _ (s : Serdes) (instances : Assoc ℕ ℕ) (s' : Serdes) (instances' : Assoc ℕ ℕ)
    (grows : Grows s instances s' instances') where
  pub PointerImage-Grows :
      (a b : Option ℕ) → PointerImage s instances a b → PointerImage s' instances' a b
  PointerImage-Grows none none h = tt
  PointerImage-Grows (some a) (some b) h = grows a b h
  PointerImage-Grows none (some b) h = h
  PointerImage-Grows (some a) none h = h

module _ {D : Type 0} where
  abbrev pub FieldImage : Serdes → Assoc ℕ ℕ → Field D → Field D → Type 0
  FieldImage s instances (value d) (value d') = d ≡ d'
  FieldImage s instances (pointer a) (pointer b) = PointerImage s instances a b
  FieldImage s instances _ _ = ⊥

  abbrev pub FieldsImage : Serdes → Assoc ℕ ℕ → List (Field D) → List (Field D) → Type 0
  FieldsImage s instances [] [] = Unit
  FieldsImage s instances (f ∷ fs) (g ∷ gs) =
      FieldImage s instances f g × FieldsImage s instances fs gs
  FieldsImage s instances _ _ = ⊥

  module _ (s : Serdes) (instances : Assoc ℕ ℕ) (s' : Serdes) (instances' : Assoc ℕ ℕ)
      (grows : Grows s instances s' instances') where
    FieldImage-Grows : (f g : Field D) → FieldImage s instances f g → FieldImage s' instances' f g
    FieldImage-Grows (value d) (value d') h = h
    FieldImage-Grows (pointer a) (pointer b) h =
        PointerImage-Grows s instances s' instances' grows a b h
    FieldImage-Grows (value d) (pointer b) h = h
    FieldImage-Grows (pointer a) (value d) h = h

    pub FieldsImage-Grows :
        (fs gs : List (Field D)) → FieldsImage s instances fs gs → FieldsImage s' instances' fs gs
    FieldsImage-Grows [] [] h = tt
    FieldsImage-Grows (f ∷ fs) (g ∷ gs) h = (FieldImage-Grows f g h.0, FieldsImage-Grows fs gs h.1)
    FieldsImage-Grows [] (g ∷ gs) h = h
    FieldsImage-Grows (f ∷ fs) [] h = h

  module _ (heap : List (Object D)) where
    -- The unpacked object at `b` has the type of the object at `a`, and the images of its fields.
    pub record Copied (s : Serdes) (instances : Assoc ℕ ℕ) (objects : List (Object D)) (a b : ℕ)
        : Type 0 where
      pub origin : Object D
      pub packed : get_elem? heap a ≡ some origin
      pub result : Object D
      pub unpacked : get_elem? objects b ≡ some result
      pub type : result.ty ≡ origin.ty
      pub fields : FieldsImage s instances origin.fields result.fields

    -- What a step of the two passes, from `s` and `u` to `s'` and `u'`, leaves.
    pub record Moved (s : Serdes) (u : Unpacker D) (s' : Serdes) (u' : Unpacker D) : Type 0 where
      pub grows : Grows s u.instances s' u'.instances
      pub kept :
          (i : ℕ) (o : Object D) → get_elem? u.objects i ≡ some o → get_elem? u'.objects i ≡ some o
      pub filled :
          (a b : ℕ)
          → visited s a ≡ false
          → Place s' u'.instances a b
          → Copied s' u'.instances u'.objects a b
      pub sync : Sync s' u'.instances (length u'.objects)

    Copied-Moved :
        {s : Serdes} {u : Unpacker D} {s' : Serdes} {u' : Unpacker D} (a b : ℕ)
        → Moved s u s' u'
        → Copied s u.instances u.objects a b
        → Copied s' u'.instances u'.objects a b
    Copied-Moved {s} {u} {s'} {u'} a b m c = record {
      origin = c.origin;
      packed = c.packed;
      result = c.result;
      unpacked = m.kept b c.result c.unpacked;
      type = c.type;
      fields =
          FieldsImage-Grows s u.instances s' u'.instances m.grows c.origin.fields c.result.fields
            c.fields;
    }

    -- Nothing new is met.
    pub Moved-quiet :
        (s : Serdes) (u : Unpacker D) (s' : Serdes) (rest : List ℕ)
        → Grows s u.instances s' u.instances
        → ((a : ℕ) → visited s' a ≡ true → visited s a ≡ true)
        → Sync s' u.instances (length u.objects)
        → Moved s u s' (record u { input = rest })
    Moved-quiet s u s' rest g old y = record {
      grows = g;
      kept = λ i o e. e;
      filled = λ a b new x. let seen = old a (Entry-visited s' a x.entry) in absurd (ground arith);
      sync = y;
    }

    pub Moved-trans :
        {s : Serdes} {u : Unpacker D} {s1 : Serdes} {u1 : Unpacker D} {s' : Serdes}
        {u' : Unpacker D}
        → Moved s u s1 u1
        → Moved s1 u1 s' u'
        → Moved s u s' u'
    Moved-trans {s} {u} {s1} {u1} {s'} {u'} m n = record {
      grows = λ a b x. n.grows a b (m.grows a b x);
      kept = λ i o e. n.kept i o (m.kept i o e);
      filled = λ a b new x. elim (Bool-cases (visited s1 a)) [
        | inl met ↦
            let (c, y) = m.sync.here a met in
            let same : c ≡ b = Place-functional (n.grows a c y) x in
            Copied-Moved a b n (m.filled a b new (subst (λ d. Place s1 u1.instances a d) same y))
        | inr still ↦ n.filled a b still x
      ];
      sync = n.sync;
    }
