-- ===== src/Pool/Blocks.antt =====
-- The blocks in use never overlap.
use hypercomm.Base.{
  ℕ, zero, suc, ◌+◌, ◌-◌, ◌<◌, ◌≤◌, ◌≡◌, ◌⊎◌, refl, List, [], ◌∷◌, some, arith, All, All-get_elem?,
  All-erase_idx, get_elem?, erase_idx, leb, nat_beq, nat_beq_iff, Bool-cases, inl, inr, subst,
}
use hypercomm.Pool.{
  Block, in_pool, in_heap, FwdPool, storage_size, allocate, deallocate, Step, asks, returns, Reach,
  unused, next,
}

module _ (item_size n_items : ℕ) where
  -- Two blocks share no byte; blocks of the heap are told apart by their numbers.
  abbrev pub Apart : Block → Block → Type 0
  Apart (in_pool a) (in_pool b) = (a + item_size ≤ b) ⊎ (b + item_size ≤ a)
  Apart (in_heap a) (in_heap b) = (a < b) ⊎ (b < a)
  Apart _ _ = Unit

  abbrev pub AllApart : List Block → Type 0
  AllApart [] = Unit
  AllApart (b ∷ live) = All (Apart b) live × AllApart live

  -- A block lies below the offset, or was given by the heap.
  abbrev pub Given : FwdPool → Block → Type 0
  Given pool (in_pool raw) = raw + item_size ≤ pool.offset
  Given pool (in_heap b) = b < pool.heap_blocks

  pub record IsDisjoint (pool : FwdPool) (live : List Block) : Type 0 where
    pub inside : pool.offset ≤ storage_size item_size n_items
    pub given : All (Given pool) live
    pub apart : AllApart live

  Apart-symmetric : (a b : Block) → Apart a b → Apart b a
  Apart-symmetric (in_pool a) (in_pool b) (inl h) = inr h
  Apart-symmetric (in_pool a) (in_pool b) (inr h) = inl h
  Apart-symmetric (in_heap a) (in_heap b) (inl h) = inr h
  Apart-symmetric (in_heap a) (in_heap b) (inr h) = inl h
  Apart-symmetric (in_pool a) (in_heap b) h = tt
  Apart-symmetric (in_heap a) (in_pool b) h = tt

  AllApart-erase_idx : (live : List Block) (k : ℕ) → AllApart live → AllApart (erase_idx live k)
  AllApart-erase_idx [] k h = h
  AllApart-erase_idx (b ∷ live) zero h = h.1
  AllApart-erase_idx (b ∷ live) (suc k) h =
      (All-erase_idx (Apart b) live k h.0, AllApart-erase_idx live k h.1)

  -- A block is apart from the others.
  others-Apart :
      (live : List Block) (k : ℕ) (b : Block)
      → AllApart live
      → get_elem? live k ≡ some b
      → All (Apart b) (erase_idx live k)
  others-Apart [] k b h at = cc
  others-Apart (c ∷ live) zero b h at =
      let same : c ≡ b = cc in subst (λ x. All (Apart x) live) same h.0
  others-Apart (c ∷ live) (suc k) b h at =
      (Apart-symmetric c b (All-get_elem? (Apart c) live k b h.0 at), others-Apart live k b h.1 at)

  All-zip :
      (P Q R : Block → Type 0) (f : (b : Block) → P b → Q b → R b) (live : List Block)
      → All P live
      → All Q live
      → All R live
  All-zip P Q R f [] p q = tt
  All-zip P Q R f (b ∷ live) p q = (f b p.0 q.0, All-zip P Q R f live p.1 q.1)

  module _ (positive : 0 < item_size) where
    -- What is given out next is apart from what was given before.
    fresh-Apart :
        (pool : FwdPool) (b : Block)
        → Given pool b
        → Apart (in_pool pool.offset) b × Apart (in_heap pool.heap_blocks) b
    fresh-Apart pool (in_pool raw) h = (inr h, tt)
    fresh-Apart pool (in_heap n) h = (tt, inr h)

    Given-grow :
        (pool pool' : FwdPool) (b : Block)
        → pool.offset ≤ pool'.offset
        → pool.heap_blocks ≤ pool'.heap_blocks
        → Given pool b
        → Given pool' b
    Given-grow pool pool' (in_pool raw) h k g = omega arith
    Given-grow pool pool' (in_heap n) h k g = omega arith

    -- When the last block is taken back, the others lie below it.
    Given-shrink :
        (pool : FwdPool) (raw : ℕ) (b : Block)
        → raw ≡ pool.offset - item_size
        → raw + item_size ≤ pool.offset
        → Given pool b
        → Apart (in_pool raw) b
        → Given (record pool { offset = pool.offset - item_size }) b
    Given-shrink pool raw (in_pool c) top h g a = ground arith
    Given-shrink pool raw (in_heap n) top h g a = g

    deallocate-IsDisjoint :
        (pool : FwdPool) (live : List Block) (k : ℕ) (b : Block)
        → get_elem? live k ≡ some b
        → IsDisjoint pool live
        → IsDisjoint (deallocate item_size n_items b pool) (erase_idx live k)
    unfolding deallocate
    deallocate-IsDisjoint pool live k (in_heap n) at h = record {
      inside = h.inside;
      given = All-erase_idx (Given pool) live k h.given;
      apart = AllApart-erase_idx live k h.apart;
    }
    deallocate-IsDisjoint pool live k (in_pool raw) at h =
        let below = All-get_elem? (Given pool) live k (in_pool raw) h.given at in
        let left = All-erase_idx (Given pool) live k h.given in
        let apart = AllApart-erase_idx live k h.apart in
        elim (Bool-cases (nat_beq raw (pool.offset - item_size))) [
          | inl e ↦
              let top = (nat_beq_iff _ _).0 e in
              let shrunk : IsDisjoint (record pool { offset = pool.offset - item_size })
                  (erase_idx live k) =
                record {
                  inside = omega (arith, h.inside);
                  given =
                      All-zip (Given pool) (Apart (in_pool raw)) _
                        (λ b. Given-shrink pool raw b top below) (erase_idx live k) left
                        (others-Apart live k (in_pool raw) h.apart at);
                  apart = apart;
                } in
              rw (deallocate, e) shrunk
          | inr e ↦ rw (deallocate, e) (record { inside = h.inside; given = left; apart = apart })
        ]

    extend-IsDisjoint :
        (pool pool' : FwdPool) (live : List Block) (b : Block)
        → pool.offset ≤ pool'.offset
        → pool.heap_blocks ≤ pool'.heap_blocks
        → pool'.offset ≤ storage_size item_size n_items
        → Given pool' b
        → All (Apart b) live
        → IsDisjoint pool live
        → IsDisjoint pool' (b ∷ live)
    extend-IsDisjoint pool pool' live b grows more fits given apart h = record {
      inside = fits;
      given = (
        given,
        All-zip (Given pool) (Given pool) _ (λ c g _. Given-grow pool pool' c grows more g) live
            h.given h.given,
      );
      apart = (apart, h.apart);
    }

    abbrev from_pool : FwdPool → Block × FwdPool
    from_pool pool = (in_pool pool.offset, record pool { offset = pool.offset + item_size })

    abbrev from_heap : FwdPool → Block × FwdPool
    from_heap pool = (in_heap pool.heap_blocks, record pool { heap_blocks = pool.heap_blocks + 1 })

    allocate-cases :
        (pool : FwdPool) (live : List Block)
        → IsDisjoint pool live
        → (r : Block × FwdPool) × (allocate item_size n_items 1 pool ≡ some r)
          × IsDisjoint r.1 (r.0 ∷ live)
    unfolding allocate
    allocate-cases pool live h =
        let new =
          All-zip (Given pool) (Given pool) _ (λ c g _. fresh-Apart pool c g) live h.given
            h.given in
        elim (Bool-cases (leb (pool.offset + item_size) (storage_size item_size n_items))) [
          | inl e ↦ (
            from_pool pool,
            rw (allocate, e) refl,
            extend-IsDisjoint pool (from_pool pool).1 live (in_pool pool.offset) (omega arith)
                (omega arith) (ground arith) (omega arith)
                (All-zip _ _ _ (λ c g _. g.0) live new new) h,
          )
          | inr e ↦ (
            from_heap pool,
            rw (allocate, e) refl,
            extend-IsDisjoint pool (from_heap pool).1 live (in_heap pool.heap_blocks) (omega arith)
                (omega arith) h.inside (omega arith) (All-zip _ _ _ (λ c g _. g.1) live new new) h,
          )
        ]

    step-IsDisjoint :
        (s s' : FwdPool × List Block)
        → Step item_size n_items s s'
        → IsDisjoint s.0 s.1
        → IsDisjoint s'.0 s'.1
    step-IsDisjoint (pool, live) _ (asks b pool' got) h =
        let (r, gets, holds) = allocate-cases pool live h in
        let same : r ≡ (b, pool') = cc in subst (λ x. IsDisjoint x.1 (x.0 ∷ live)) same holds
    step-IsDisjoint (pool, live) _ (returns k b at) h = deallocate-IsDisjoint pool live k b at h

    -- For items of a positive size, in every state that the calls of a container reach: no two blocks in
    -- use share a byte, the pool's blocks lie within its storage, and blocks of the heap are distinct.
    pub Reach-IsDisjoint :
        (s : FwdPool × List Block) → Reach item_size n_items s → IsDisjoint s.0 s.1
    Reach-IsDisjoint _ unused = record { inside = omega arith; given = tt; apart = tt }
    Reach-IsDisjoint s' (next {s} r step) = step-IsDisjoint s s' step (Reach-IsDisjoint s r)
