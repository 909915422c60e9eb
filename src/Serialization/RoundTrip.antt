-- ===== src/Serialization/RoundTrip.antt =====
-- include/hypercomm/serialization/pup.hpp: shared pointers, packed and unpacked.
use hypercomm.Base.{
  ℕ, zero, suc, ◌<◌, ◌^◌, ◌≡◌, ◌≢◌, refl, sym, ap, subst, ◌∙◌, inl, inr, true, false, List, [], ◌∷◌,
  ◌++◌, append_assoc, Option, none, some, arith, length, length-append, map, get_elem?,
  get_elem?-lt, get_elem?-set_self, get_elem?-set_ne, get_elem?-append, get_elem?-append_last,
  lt-length_of_get_elem?, length-set, nat_eq, nat_beq_iff, ◌==◌, ==_sound, ==→ne, lookup,
  Bool-cases, if_true, if_false, ◌>>=◌,
}
use hypercomm.Serialization.Bytes.{word_size}
use hypercomm.Serialization.Containers.{Puper}
use hypercomm.Serialization.Records.{packing, Serdes, copy, write_record, put_ptr_record}
use hypercomm.Serialization.Meeting.{
  visited, Meeting, get_record-Meeting, record_bytes, with_record, visited-with_record,
}
use hypercomm.Serialization.Packing.{announced, pack_ptr-visited, pack_ptr-new}
use hypercomm.Serialization.Unpacking.{
  opened, unpack_ptr-null, unpack_ptr-reference, unpack_ptr-instance,
}
use hypercomm.Serialization.Pointers.{Field, Object, Form, Unpacker, fill, pack_ptr, unpack_ptr}
use hypercomm.Serialization.Sound.{
  unvisited, IsSound, announced-IsSound, unvisited-announced, unvisited-again, Meeting-bounded,
  Meeting-typed,
}
use hypercomm.Serialization.Sync.{
  Place, Sync, again-Sync, new-Sync, fresh_id, Place-here, Place-there, Place-announced,
  Place-functional, Place-injective,
}
use hypercomm.Serialization.Images.{form, PointerImage, FieldsImage, Copied, Moved, Moved-quiet}
use hypercomm.Serialization.Passes.{
  Leads, IsFormed, Passes, FieldsPass, copy-IsSound, written-copy, pack_fields-Passes,
}

module _ {D : Type 0} ⦃p : Puper D⦄ (fields_of : ℕ → List Form) (heap : List (Object D))
    (well : IsFormed fields_of heap) where
  abbrev PointerPass : ℕ → Option ℕ → Serdes → Type 0
  PointerPass fuel a s =
      Passes fields_of heap s (λ s' i b. PointerImage s' i a b) (unpack_ptr fields_of fuel)
        (pack_ptr heap fuel a s)

  null-Passes : (fuel : ℕ) (s : Serdes) → IsSound heap s → PointerPass (suc fuel) none s
  unfolding pack_ptr write_record put_ptr_record copy
  null-Passes fuel s h = record {
    s' = copy (1 ∷ []) s;
    bytes = 1 ∷ [];
    packs = refl;
    phase = refl;
    wrote = λ k. written-copy fields_of heap (1 ∷ []) s k;
    sound = copy-IsSound fields_of heap (1 ∷ []) s h;
    fewer = omega arith;
    takes = λ u rest e y. record {
      out = none;
      u' = record u { input = rest };
      runs = unpack_ptr-null fields_of fuel u rest e;
      rests = refl;
      good = tt;
      moved = Moved-quiet heap s u (copy (1 ∷ []) s) rest (λ a b x. x) (λ a v. v) y;
    };
  }

  module _ {a : ℕ} (o : Object D) {s : Serdes} (m : Meeting a o.ty s)
      (e : get_elem? heap a ≡ some o) (h : IsSound heap s) where
    id_fits : m.rec.id < 256 ^ word_size
    id_fits =
        omega (arith, Meeting-bounded heap o m h, (announced-IsSound heap o m e h).room, well.small)

    announced_phase : (announced m).phase ≡ s.phase
    unfolding copy
    announced_phase = refl

    wrote_record : s.phase ≡ packing → (announced m).written ≡ s.written ++ record_bytes m.rec
    wrote_record k = written-copy fields_of heap (record_bytes m.rec) (with_record a m.rec s) k

    visited_before :
        visited s a ≡ true → (b : ℕ) → visited (announced m) b ≡ true → visited s b ≡ true
    unfolding copy
    visited_before v b w = ground (arith, visited-with_record m b, nat_beq_iff a b)

    visited-Passes : (fuel : ℕ) → visited s a ≡ true → PointerPass (suc fuel) (some a) s
    visited-Passes fuel v = record {
      s' = announced m;
      bytes = record_bytes m.rec;
      packs = pack_ptr-visited heap m fuel e v;
      phase = announced_phase;
      wrote = wrote_record;
      sound = announced-IsSound heap o m e h;
      fewer = omega (arith, unvisited-again heap o m v);
      takes = λ u rest ahead y.
          let (c, x) = y.here a v in
          let known : lookup m.rec.id u.instances ≡ some c =
            ap (λ i. lookup i u.instances) (m.keeps x.entry.rec x.entry.found).0 ∙ x.known in
          record {
            out = some c;
            u' = record u { input = rest };
            runs =
                unpack_ptr-reference fields_of fuel u rest m.rec ahead id_fits
                  (m.turn ∙ if_true _ _ v)
                ∙ ap (λ q. some (q, record u { input = rest })) known;
            rests = refl;
            good = Place-announced m a c x;
            moved =
                Moved-quiet heap s u (announced m) rest (Place-announced m) (visited_before v)
                  (again-Sync m v y);
          };
    }

    unvisited_after : (b : ℕ) → a ≢ b → visited s b ≡ false → visited (announced m) b ≡ false
    unfolding copy
    unvisited_after b other new = ground (arith, visited-with_record m b, nat_beq_iff a b)

    module _ (v : visited s a ≡ false) where
      -- The unpacker has the new object's fields, and fills it.
      module _ (u : Unpacker D) (rest : List ℕ) (y : Sync s u.instances (length u.objects))
          (s' : Serdes) (sound : IsSound heap s') (out : List (Field D)) (u3 : Unpacker D)
          (good : FieldsImage s' u3.instances o.fields out)
          (moved : Moved heap (announced m) (opened u rest m.rec) s' u3) where
        at_end :
            get_elem? u3.objects (length u.objects) ≡ some (record { ty = m.rec.ty; fields = [] })
        at_end = moved.kept (length u.objects) _ (get_elem?-append_last u.objects _)

        placed : Place s' u3.instances a (length u.objects)
        placed = moved.grows a (length u.objects) (Place-here heap o m h y v)

        abbrev filled_up : Unpacker D
        filled_up = fill (length u.objects) m.rec.ty out u3

        fill-kept :
            (i : ℕ) (b : Object D)
            → get_elem? u.objects i ≡ some b
            → get_elem? filled_up.objects i ≡ some b
        fill-kept i b f =
            let below = lt-length_of_get_elem? u.objects i b f in
            get_elem?-set_ne u3.objects (length u.objects) i _ (omega arith)
            ∙ moved.kept i b (get_elem?-append u.objects _ i b f)

        fill-here : Copied heap s' u3.instances filled_up.objects a (length u.objects)
        fill-here = record {
          origin = o;
          packed = e;
          result = record { ty = m.rec.ty; fields = out };
          unpacked =
              get_elem?-set_self u3.objects (length u.objects) _
                (lt-length_of_get_elem? u3.objects (length u.objects) _ at_end);
          type = Meeting-typed heap o m h o e e;
          fields = good;
        }

        fill-there :
            (b c : ℕ)
            → a ≢ b
            → visited s b ≡ false
            → Place s' u3.instances b c
            → Copied heap s' u3.instances filled_up.objects b c
        fill-there b c other new x =
            let apart : length u.objects ≢ c = λ same. other (
              Place-injective heap sound moved.sync
                (subst (λ i. Place s' u3.instances a i) same placed) x) in
            let old = moved.filled b c (unvisited_after b other new) x in
            record {
              origin = old.origin;
              packed = old.packed;
              result = old.result;
              unpacked = get_elem?-set_ne u3.objects (length u.objects) c _ apart ∙ old.unpacked;
              type = old.type;
              fields = old.fields;
            }

        fill-Moved : Moved heap s u s' filled_up
        fill-Moved = record {
          grows = λ b c x. moved.grows b c (Place-there heap o m h y v b c x);
          kept = fill-kept;
          filled = λ b c new x. elim (Bool-cases (a == b)) [
            | inl same ↦
                let here = ==_sound a b same in
                let at : Place s' u3.instances a c =
                  subst (λ d. Place s' u3.instances d c) (sym here) x in
                let where_at : length u.objects ≡ c = Place-functional placed at in
                subst (λ d. Copied heap s' u3.instances filled_up.objects d c) here
                  (subst (λ d. Copied heap s' u3.instances filled_up.objects a d) where_at
                    fill-here)
            | inr other ↦ fill-there b c (==→ne a b other) new x
          ];
          sync = subst (λ n. Sync s' u3.instances n) (sym (length-set u3.objects _ _)) moved.sync;
        }

      opened-Sync :
          (u : Unpacker D) (rest : List ℕ)
          → Sync s u.instances (length u.objects)
          → Sync
              (announced m)
              (opened u rest m.rec).instances
              (length (opened u rest m.rec).objects)
      opened-Sync u rest y =
          let grown : suc (length u.objects) ≡ length (opened u rest m.rec).objects =
            omega (arith, length-append u.objects (record { ty = m.rec.ty; fields = [] } ∷ [])) in
          subst (λ n. Sync (announced m) (opened u rest m.rec).instances n) grown
            (new-Sync heap o m h y v)

      ty_fits : m.rec.ty < 256 ^ word_size
      ty_fits = omega (arith, Meeting-typed heap o m h o e e, (well.formed a o e).2)

      forms_fit : fields_of m.rec.ty ≡ map form o.fields
      forms_fit = ap fields_of (Meeting-typed heap o m h o e e) ∙ sym (well.formed a o e).0

      new-Passes :
          (fuel : ℕ)
          → FieldsPass fields_of heap
              (pack_ptr heap fuel)
              (unpack_ptr fields_of fuel)
              o.fields
              (announced m)
          → PointerPass (suc fuel) (some a) s
      new-Passes fuel t = record {
        s' = t.s';
        bytes = record_bytes m.rec ++ t.bytes;
        packs = pack_ptr-new heap m fuel e v ∙ t.packs;
        phase = t.phase ∙ announced_phase;
        wrote = λ k.
            t.wrote (announced_phase ∙ k)
            ∙ ap (λ w. w ++ t.bytes) (wrote_record k)
            ∙ append_assoc s.written (record_bytes m.rec) t.bytes;
        sound = t.sound;
        fewer = omega (arith, unvisited-announced heap o m e v, t.fewer);
        takes = λ u rest ahead y.
            let onward = t.bytes ++ rest in
            let x = t.takes (opened u onward m.rec) rest refl (opened-Sync u onward y) in
            record {
              out = some (length u.objects);
              u' = fill (length u.objects) m.rec.ty x.out x.u';
              runs =
                  unpack_ptr-instance fields_of fuel u onward m.rec
                    (ahead ∙ append_assoc (record_bytes m.rec) t.bytes rest) id_fits
                    (m.turn ∙ if_false _ _ v) ty_fits (fresh_id heap o m h y v)
                  ∙ rw (forms_fit, ◌>>=◌) (rw (x.runs, ◌>>=◌) refl);
              rests = x.rests;
              good = placed u onward y t.s' t.sound x.out x.u' x.good x.moved;
              moved = fill-Moved u onward y t.s' t.sound x.out x.u' x.good x.moved;
            };
      }

  -- The fuel exceeds the number of the objects that are not visited.
  pub pack_ptr-Passes :
      (fuel : ℕ) (a : Option ℕ) (s : Serdes)
      → Leads fields_of heap a
      → IsSound heap s
      → unvisited heap s < fuel
      → PointerPass fuel a s
  pack_ptr-Passes zero a s l h lt = absurd (omega arith)
  pack_ptr-Passes (suc fuel) none s l h lt = null-Passes fuel s h
  pack_ptr-Passes (suc fuel) (some a) s l h lt =
      let (o, e) = get_elem?-lt heap a l in
      let m = get_record-Meeting a o.ty s h.usable in
      elim (Bool-cases (visited s a)) [
        | inl v ↦ visited-Passes o m e h fuel v
        | inr v ↦ new-Passes o m e h v fuel (
            pack_fields-Passes fields_of heap (pack_ptr heap fuel) (unpack_ptr fields_of fuel) fuel
              (λ b t. pack_ptr-Passes fuel b t) o.fields (announced m) (well.formed a o e).1
              (announced-IsSound heap o m e h) (omega (arith, unvisited-announced heap o m e v)))
      ]
