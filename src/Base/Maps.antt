-- ===== src/Base/Maps.antt =====
-- Maps from keys to values: `std::map`, `std::unordered_map` and the library's `hash_map`.
-- An association list, so that iteration has some order; keys are compared by `Eq`.
use mathlib.Core.Path.{◌≡◌, refl, sym, subst, ◌∙◌}
use mathlib.Core.List.{List, [], ◌∷◌}
use mathlib.Core.Option.{Option, none, some}
use native.Mathlib.Omega.{arith}
use hypercomm.Base.Tests.{if◌then◌else◌, Eq, ◌==◌, ==_refl, Bool-cases, none-ne_some, some-eq}
use hypercomm.Base.Lists.{All}
use mathlib.Core.Logic.{inl, inr}

abbrev pub Assoc {ℓ} : Type ℓ → Type ℓ → Type ℓ
Assoc K V = List (K × V)

module _ {ℓ} {K V : Type ℓ} ⦃e : Eq K⦄ where
  -- `find`, with `none` for the end iterator.
  unfoldable pub lookup : K → Assoc K V → Option V
  lookup k [] = none
  lookup k ((key, v) ∷ entries) = if key == k then some v else lookup k entries

  -- `entries[k] = v`.
  unfoldable pub insert : K → V → Assoc K V → Assoc K V
  insert k v [] = (k, v) ∷ []
  insert k v ((key, old) ∷ entries) =
      if key == k then (k, v) ∷ entries else (key, old) ∷ insert k v entries

  -- `erase(k)`.
  unfoldable pub erase : K → Assoc K V → Assoc K V
  erase k [] = []
  erase k ((key, old) ∷ entries) =
      if key == k then erase k entries else (key, old) ∷ erase k entries

  -- `entries[k]` read with a default, which the source inserts.
  abbrev pub lookup_or : K → V → Assoc K V → V
  lookup_or k d entries = elim (lookup k entries) [ none ↦ d | some v ↦ v ]

  -- `emplace`, which keeps the value of a key that is present.
  abbrev pub emplace : K → V → Assoc K V → Assoc K V
  emplace k v entries = elim (lookup k entries) [ none ↦ insert k v entries | some _ ↦ entries ]

  pub lookup-insert :
      (k j : K) (v : V) (entries : Assoc K V)
      → lookup j (insert k v entries) ≡ (if k == j then some v else lookup j entries)
  unfolding lookup insert
  lookup-insert k j v [] = refl
  lookup-insert k j v ((i, old) ∷ entries) =
      ground (arith, e.equal_iff k j, e.equal_iff i k, e.equal_iff i j, lookup-insert k j v entries)

  pub lookup-erase :
      (k j : K) (entries : Assoc K V)
      → lookup j (erase k entries) ≡ (if k == j then none else lookup j entries)
  unfolding lookup erase
  lookup-erase k j [] = ground arith
  lookup-erase k j ((i, old) ∷ entries) =
      ground (arith, e.equal_iff k j, e.equal_iff i k, e.equal_iff i j, lookup-erase k j entries)

  pub lookup-insert_self :
      (k : K) (v : V) (entries : Assoc K V) → lookup k (insert k v entries) ≡ some v
  lookup-insert_self k v entries = rw (lookup-insert, ==_refl)

  pub lookup-erase_self : (k : K) (entries : Assoc K V) → lookup k (erase k entries) ≡ none
  lookup-erase_self k entries = rw (lookup-erase, ==_refl)

  pub lookup_or-insert :
      (k j : K) (d v : V) (entries : Assoc K V)
      → lookup_or j d (insert k v entries) ≡ (if k == j then v else lookup_or j d entries)
  lookup_or-insert k j d v entries = elim (Bool-cases (k == j)) [
    | inl h ↦ rw (lookup_or, lookup-insert, h)
    | inr h ↦ rw (lookup_or, lookup-insert, h)
  ]

-- A property of all the entries' values.
module _ {K V : Type 0} ⦃e : Eq K⦄ (P : V → Type 0) where
  pub All-insert :
      (k : K) (v : V) (entries : Assoc K V)
      → All (λ entry. P entry.1) entries
      → P v
      → All (λ entry. P entry.1) (insert k v entries)
  unfolding insert
  All-insert k v [] h p = (p, tt)
  All-insert k v ((i, old) ∷ entries) h p = elim (Bool-cases (i == k)) [
    | inl same ↦ rw same (p, h.1)
    | inr other ↦ rw other (h.0, All-insert k v entries h.1 p)
  ]

  pub All-erase :
      (k : K) (entries : Assoc K V)
      → All (λ entry. P entry.1) entries
      → All (λ entry. P entry.1) (erase k entries)
  unfolding erase
  All-erase k [] h = tt
  All-erase k ((i, old) ∷ entries) h = elim (Bool-cases (i == k)) [
    | inl same ↦ rw same (All-erase k entries h.1)
    | inr other ↦ rw other (h.0, All-erase k entries h.1)
  ]

  pub All-lookup :
      (k : K) (v : V) (entries : Assoc K V)
      → All (λ entry. P entry.1) entries
      → lookup k entries ≡ some v
      → P v
  unfolding lookup
  All-lookup k v [] h found = absurd (none-ne_some found)
  All-lookup k v ((i, old) ∷ entries) h found = elim (Bool-cases (i == k)) [
    | inl same ↦ subst P (some-eq (sym (rw (same, lookup) refl) ∙ found)) h.0
    | inr other ↦ All-lookup k v entries h.1 (sym (rw (other, lookup) refl) ∙ found)
  ]

pub ruleset map_laws = (lookup-insert, lookup-erase, ==_refl)
