-- ===== src/Sections.antt =====
-- include/hypercomm/sections/: sections, the identities of their members, and the counters of
-- broadcasts and reductions.
pub mod Tree
pub mod Broadcast
pub mod Reduction
mod Tests
use hypercomm.Base.{
  ◌>>=◌, ℕ, ◌+◌, ◌%◌, ◌^◌, Bool, true, false, ◌&&◌, List, [], ◌∷◌, ◌++◌, Option, none, some, length,
  get_elem?, index_of, Eq, ◌==◌, nat_beq, leb, if◌then◌else◌,
}
use hypercomm.Base.Int.{ℤ, pos, negsuc, leb_ℤ, ltb_ℤ}
use hypercomm.Math.{left_child, right_child, parent, hash_iterable, size_mod}

-- A failed `CkAssert` ends the run: `none`.
abbrev pub assert {ℓ} : {A : Type ℓ} → Bool → Option A → Option A
assert b a = if b then a else none

module _ {I : Type 0} ⦃e : Eq I⦄ where
  -- `section::ordinal_for`: -1 for an index that is no member.
  unfoldable pub ordinal_for : List I → I → ℤ
  ordinal_for members idx =
      let search = index_of idx members in
      if nat_beq search (length members) then negsuc 0 else pos search

  -- `section::is_valid_ordinal`.
  unfoldable pub is_valid_ordinal : List I → ℤ → Bool
  is_valid_ordinal members ord = leb_ℤ (pos 0) ord && ltb_ℤ ord (pos (length members))

  unfoldable pub is_member : List I → I → Bool
  is_member members idx = is_valid_ordinal members (ordinal_for members idx)

  -- `section::index_at`; an ordinal out of range is undefined behaviour.
  unfoldable pub index_at : List I → ℤ → Option I
  index_at members (pos n) = get_elem? members n
  index_at members (negsuc n) = none

  -- `if (is_valid_ordinal(o)) rval.push_back(index_at(o));`
  unfoldable pub push_valid : List I → ℤ → List I → Option (List I)
  push_valid members o rval =
      if is_valid_ordinal members o
      then (index_at members o >>= λ i. some (rval ++ i ∷ []))
      else some rval

  -- `section_identity::downstream`: the parent in the spanning tree, none for the root.
  unfoldable pub downstream : List I → I → Option (List I)
  downstream members mine =
      let ord = ordinal_for members mine in
      assert (is_valid_ordinal members ord) (push_valid members (parent ord) [])

  -- `section_identity::upstream`: the children in the spanning tree.
  unfoldable pub upstream : List I → I → Option (List I)
  upstream members mine =
      let ord = ordinal_for members mine in
      assert (is_valid_ordinal members ord)
        (push_valid members (left_child ord) [] >>= push_valid members (right_child ord))

  -- `vector_section::equals`, on another section of the same type.
  unfoldable pub equals : List I → List I → Bool
  equals [] [] = true
  equals (x ∷ xs) (y ∷ ys) = x == y && equals xs ys
  equals _ _ = false

  -- `vector_section::hash`.
  pub hash : (I → ℕ) → List I → ℕ
  hash hasher members = hash_iterable hasher members

-- `identity`: the counters, of type `reduction_id_t` (64 bits).
pub record Identity : Type 0 where
  pub redn_count : ℕ
  pub bcast_count : ℕ

unfoldable pub identity : ℕ → Identity
identity seed = record { redn_count = seed; bcast_count = 0 }

-- `redn_count_++`: the old value is the result.
unfoldable pub next_reduction : Identity → ℕ × Identity
next_reduction s = (s.redn_count, record s { redn_count = (s.redn_count + 1) % size_mod })

unfoldable pub next_broadcast : Identity → ℕ
next_broadcast s = (s.bcast_count + 1) % size_mod

unfoldable pub accept_broadcast : Identity → ℕ → Bool × Identity
accept_broadcast s bcast =
    if leb bcast s.bcast_count then (false, s) else (true, record s { bcast_count = bcast })
