-- ===== src/Enrollment.antt =====
-- src/hypercomm/serialization/enrollment.cc: the registry of polymorphic types. A type is identified
-- by `T`, and `A` stands for the functions that make an instance. An abort is `none`.
pub mod Registry
mod Tests
use hypercomm.Base.{
  ℕ, List, [], ◌∷◌, Option, none, some, length, nat_eq, Eq, Assoc, lookup, insert, ◌>>=◌,
}

-- `type_registry_` and `alloc_registry_`.
pub record Enrolled (T A : Type 0) : Type 0 where
  pub types : Assoc T ℕ
  pub allocs : Assoc ℕ A

module _ {T A : Type 0} ⦃e : Eq T⦄ where
  -- `enroll`, which aborts on a type that is registered.
  unfoldable pub enroll : T → A → Enrolled T A → Option (ℕ × Enrolled T A)
  enroll t alloc r =
      let id = length r.types in
      elim (lookup t r.types) [
        | some _ ↦ none
        | none ↦
            some (id, record { types = insert t id r.types; allocs = insert id alloc r.allocs })
      ]

  -- `identify`: `operator[]` adds a type that is missing, with the id 0.
  unfoldable pub identify : T → Enrolled T A → ℕ × Enrolled T A
  identify t r = elim (lookup t r.types) [
    | some id ↦ (id, r)
    | none ↦ (0, record r { types = insert t 0 r.types })
  ]

  -- `instantiate`, up to the call of the function.
  unfoldable pub instantiate_id : ℕ → Enrolled T A → Option A
  instantiate_id id r = lookup id r.allocs

  -- A program enrolls its types one after another.
  unfoldable pub enroll_all : List (T × A) → Enrolled T A → Option (Enrolled T A)
  enroll_all [] r = some r
  enroll_all ((t, alloc) ∷ types) r = enroll t alloc r >>= λ (id, r1). enroll_all types r1

abbrev pub no_types : {T A : Type 0} → Enrolled T A
no_types = record { types = []; allocs = [] }
