-- ===== src/Pool.antt =====
-- include/hypercomm/utilities/small_map.hpp: `fwd_pool`, the allocator behind `small_map`. A block of
-- its own storage is the distance of the block's header from the start of the storage; a block of the
-- heap is a number that the runtime gives. A `std::bad_alloc` is `none`.
pub mod Blocks
mod Tests
use hypercomm.Base.{
  ℕ, ◌+◌, ◌-◌, ◌*◌, ◌≡◌, Bool, List, [], ◌∷◌, Option, none, some, leb, nat_beq, if◌then◌else◌,
  get_elem?, erase_idx,
}

-- Where a block lies, which its header tells: `kPool` or `kHeap`.
pub data Block : Type 0 where
  in_pool : ℕ → Block
  in_heap : ℕ → Block

-- `offset`, and how many blocks the heap was asked for.
pub record FwdPool : Type 0 where
  pub offset : ℕ
  pub heap_blocks : ℕ

-- `item_size` and the number `N` of items.
module _ (item_size n_items : ℕ) where
  abbrev pub storage_size : ℕ
  storage_size = item_size * n_items

  -- `allocate`.
  unfoldable pub allocate : ℕ → FwdPool → Option (Block × FwdPool)
  allocate n pool =
      if nat_beq n 1
      then some (
          if leb (pool.offset + item_size) storage_size
          then (in_pool pool.offset, record pool { offset = pool.offset + item_size })
          else (in_heap pool.heap_blocks, record pool { heap_blocks = pool.heap_blocks + 1 }))
      else none

  -- `deallocate`: only the last block of the storage is taken back.
  unfoldable pub deallocate : Block → FwdPool → FwdPool
  deallocate (in_heap b) pool = pool
  deallocate (in_pool raw) pool =
      if nat_beq raw (pool.offset - item_size)
      then record pool { offset = pool.offset - item_size }
      else pool

  -- The calls of a container: it asks for one item, or gives back one of its blocks.
  pub data Step : FwdPool × List Block → FwdPool × List Block → Type 0 where
    asks :
        {pool : FwdPool} {live : List Block} (b : Block) (pool' : FwdPool)
        → allocate 1 pool ≡ some (b, pool')
        → Step (pool, live) (pool', b ∷ live)
    returns :
        {pool : FwdPool} {live : List Block} (k : ℕ) (b : Block)
        → get_elem? live k ≡ some b
        → Step (pool, live) (deallocate b pool, erase_idx live k)

  pub data Reach : FwdPool × List Block → Type 0 where
    unused : Reach (record { offset = 0; heap_blocks = 0 }, [])
    next : {s s' : FwdPool × List Block} → Reach s → Step s s' → Reach s'
