-- ===== src/Pool/Tests.antt =====
-- A pool of two items of 24 bytes: two blocks are taken, the second is given back and taken again, and
-- the third comes from the heap.
use hypercomm.Base.{refl, [], ◌∷◌, arith}
use hypercomm.Pool.{
  FwdPool, in_pool, in_heap, allocate, deallocate, asks, returns, Reach, unused, next,
}
use hypercomm.Pool.Blocks.{IsDisjoint, Reach-IsDisjoint}

abbrev full_pool : FwdPool
full_pool = record { offset = 48; heap_blocks = 1 }

three_blocks : Reach 24 2 (full_pool, in_heap 0 ∷ in_pool 24 ∷ in_pool 0 ∷ [])
unfolding allocate deallocate
three_blocks =
    next
      (next
        (next (next (next unused (asks _ _ refl)) (asks _ _ refl)) (returns 0 (in_pool 24) refl))
        (asks (in_pool 24) (record { offset = 48; heap_blocks = 0 }) refl))
      (asks (in_heap 0) full_pool refl)

Reach-IsDisjoint_example : IsDisjoint 24 2 full_pool (in_heap 0 ∷ in_pool 24 ∷ in_pool 0 ∷ [])
Reach-IsDisjoint_example = Reach-IsDisjoint 24 2 (omega arith) _ three_blocks
