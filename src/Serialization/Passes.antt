-- ===== src/Serialization/Passes.antt =====
-- include/hypercomm/serialization/pup.hpp: the fields of a polymorph, packed and unpacked together.
use hypercomm.Base.{
  ℕ, ◌<◌, ◌≤◌, ◌^◌, ◌≡◌, refl, ap, ◌∙◌, List, [], ◌∷◌, ◌++◌, append_assoc, append-nil, Option, none,
  some, arith, length, map, get_elem?, nat_eq, Assoc, All, ◌>>=◌,
}
use hypercomm.Serialization.Bytes.{word_size}
use hypercomm.Serialization.Containers.{Puper}
use hypercomm.Serialization.Records.{packing, Serdes, copy}
use hypercomm.Serialization.Pointers.{
  Field, value, pointer, Object, Form, Unpacker, pack_fields, unpack_fields,
}
use hypercomm.Serialization.Sound.{unvisited, IsSound}
use hypercomm.Serialization.Sync.{Sync}
use hypercomm.Serialization.Images.{
  form, PointerImage, PointerImage-Grows, FieldsImage, Moved, Moved-quiet, Moved-trans,
}

module _ {D : Type 0} ⦃p : Puper D⦄ (fields_of : ℕ → List Form) (heap : List (Object D)) where
  abbrev pub Leads : Option ℕ → Type 0
  Leads none = Unit
  Leads (some a) = a < length heap

  abbrev pub FieldFits : Field D → Type 0
  FieldFits (value d) = p.Fits d
  FieldFits (pointer a) = Leads a

  -- The objects have the forms of their types, their values fit, and no pointer dangles.
  pub record IsFormed : Type 0 where
    pub formed :
        (a : ℕ) (o : Object D)
        → get_elem? heap a ≡ some o
        → (map form o.fields ≡ fields_of o.ty) × All FieldFits o.fields × (o.ty < 256 ^ word_size)
    pub small : length heap < 256 ^ word_size

  -- What a part of the format has become: the unpacker's result, and where it stands.
  pub record Taken {A : Type 0} (s : Serdes) (u : Unpacker D) (s' : Serdes) (rest : List ℕ)
      (Good : Serdes → Assoc ℕ ℕ → A → Type 0) (run : Option (A × Unpacker D)) : Type 0 where
    pub out : A
    pub u' : Unpacker D
    pub runs : run ≡ some (out, u')
    pub rests : u'.input ≡ rest
    pub good : Good s' u'.instances out
    pub moved : Moved heap s u s' u'

  -- The packer writes some bytes, and the unpacker takes them, whatever follows.
  pub record Passes {A : Type 0} (s : Serdes) (Good : Serdes → Assoc ℕ ℕ → A → Type 0)
      (unpack : Unpacker D → Option (A × Unpacker D)) (run : Option Serdes) : Type 0 where
    pub s' : Serdes
    pub bytes : List ℕ
    pub packs : run ≡ some s'
    pub phase : s'.phase ≡ s.phase
    pub wrote : s.phase ≡ packing → s'.written ≡ s.written ++ bytes
    pub sound : IsSound heap s'
    pub fewer : unvisited heap s' ≤ unvisited heap s
    pub takes :
        (u : Unpacker D) (rest : List ℕ)
        → u.input ≡ bytes ++ rest
        → Sync s u.instances (length u.objects)
        → Taken s u s' rest Good (unpack u)

  pub copy-IsSound : (bytes : List ℕ) (s : Serdes) → IsSound heap s → IsSound heap (copy bytes s)
  unfolding copy
  copy-IsSound bytes s h = record {
    keyed = h.keyed;
    usable = h.usable;
    typed = h.typed;
    distinct = h.distinct;
    bounded = h.bounded;
    room = h.room;
  }

  pub written-copy :
      (bytes : List ℕ) (s : Serdes)
      → s.phase ≡ packing
      → (copy bytes s).written ≡ s.written ++ bytes
  unfolding copy
  written-copy bytes s h = simp h

  Moved-copy :
      (bytes rest : List ℕ) {s : Serdes} {u : Unpacker D} {s' : Serdes} {u' : Unpacker D}
      → Moved heap (copy bytes s) (record u { input = rest }) s' u'
      → Moved heap s u s' u'
  unfolding copy
  Moved-copy bytes rest m = record {
    grows = m.grows;
    kept = m.kept;
    filled = m.filled;
    sync = m.sync;
  }

  module _ (pack : Option ℕ → Serdes → Option Serdes)
      (unpack : Unpacker D → Option (Option ℕ × Unpacker D)) where
    abbrev pub FieldsPass : List (Field D) → Serdes → Type 0
    FieldsPass fields s =
        Passes s (λ s' i out. FieldsImage s' i fields out)
          (unpack_fields fields_of unpack (map form fields)) (pack_fields heap pack fields s)

    value-Passes :
        (d : D) (fields : List (Field D)) (s : Serdes)
        → p.Fits d
        → IsSound heap s
        → FieldsPass fields (copy (p.put d) s)
        → FieldsPass (value d ∷ fields) s
    unfolding pack_fields unpack_fields copy
    value-Passes d fields s fit h tail = record {
      s' = tail.s';
      bytes = p.put d ++ tail.bytes;
      packs = tail.packs;
      phase = tail.phase;
      wrote = λ k.
          tail.wrote k
          ∙ ap (λ w. w ++ tail.bytes) (written-copy (p.put d) s k)
          ∙ append_assoc s.written (p.put d) tail.bytes;
      sound = tail.sound;
      fewer = tail.fewer;
      takes = λ u rest e y.
          let t = tail.takes (record u { input = tail.bytes ++ rest }) rest refl y in
          record {
            out = value d ∷ t.out;
            u' = t.u';
            runs = simp (e, append_assoc, p.get-put d (tail.bytes ++ rest) fit, t.runs);
            rests = t.rests;
            good = (refl, t.good);
            moved = Moved-copy (p.put d) (tail.bytes ++ rest) t.moved;
          };
    }

    pointer-Passes :
        (a : Option ℕ) (fields : List (Field D)) (s : Serdes) (run : Option Serdes)
        (head : Passes s (λ s' i b. PointerImage s' i a b) unpack run)
        → FieldsPass fields head.s'
        → Passes s
            (λ s' i out. FieldsImage s' i (pointer a ∷ fields) out)
            (unpack_fields fields_of unpack (map form (pointer a ∷ fields)))
            (run >>= λ s1. pack_fields heap pack fields s1)
    unfolding unpack_fields
    pointer-Passes a fields s run head tail = record {
      s' = tail.s';
      bytes = head.bytes ++ tail.bytes;
      packs = rw (head.packs, ◌>>=◌) tail.packs;
      phase = tail.phase ∙ head.phase;
      wrote = λ k.
          tail.wrote (head.phase ∙ k)
          ∙ ap (λ w. w ++ tail.bytes) (head.wrote k)
          ∙ append_assoc s.written head.bytes tail.bytes;
      sound = tail.sound;
      fewer = omega (arith, head.fewer, tail.fewer);
      takes = λ u rest e y.
          let x =
            head.takes u (tail.bytes ++ rest) (e ∙ append_assoc head.bytes tail.bytes rest) y in
          let t = tail.takes x.u' rest x.rests x.moved.sync in
          record {
            out = pointer x.out ∷ t.out;
            u' = t.u';
            runs = rw (x.runs, ◌>>=◌) (rw (t.runs, ◌>>=◌) refl);
            rests = t.rests;
            good = (
              PointerImage-Grows head.s' x.u'.instances tail.s' t.u'.instances t.moved.grows a x.out
                  x.good,
              t.good,
            );
            moved = Moved-trans heap x.moved t.moved;
          };
    }

    module _ (fuel : ℕ)
        (each : (a : Option ℕ) (s : Serdes)
          → Leads a
          → IsSound heap s
          → unvisited heap s < fuel
          → Passes s (λ s' i b. PointerImage s' i a b) unpack (pack a s)) where
      pub pack_fields-Passes :
          (fields : List (Field D)) (s : Serdes)
          → All FieldFits fields
          → IsSound heap s
          → unvisited heap s < fuel
          → Passes s
              (λ s' i out. FieldsImage s' i fields out)
              (unpack_fields fields_of unpack (map form fields))
              (pack_fields heap pack fields s)
      unfolding pack_fields unpack_fields copy
      pack_fields-Passes [] s f h lt = record {
        s' = s;
        bytes = [];
        packs = refl;
        phase = refl;
        wrote = λ k. simp append-nil;
        sound = h;
        fewer = omega arith;
        takes = λ u rest e y. record {
          out = [];
          u' = record u { input = rest };
          runs = simp (← e);
          rests = refl;
          good = tt;
          moved = Moved-quiet heap s u s rest (λ a b x. x) (λ a v. v) y;
        };
      }
      pack_fields-Passes (value d ∷ fields) s (fit, f) h lt =
          value-Passes d fields s fit h
            (pack_fields-Passes fields (copy (p.put d) s) f (copy-IsSound (p.put d) s h) lt)
      pack_fields-Passes (pointer a ∷ fields) s (fit, f) h lt =
          let head = each a s fit h lt in
          pointer-Passes a fields s (pack a s) head
            (pack_fields-Passes fields head.s' f head.sound (omega (arith, head.fewer)))
