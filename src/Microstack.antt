-- ===== src/Microstack.antt =====
-- include/hypercomm/components/microstack.hpp: a stack of frames, each with a few items, addressed
-- by one position from the bottom up. A null pointer is `none`.
pub mod Flat
mod Tests
use hypercomm.Base.{
  ℕ, ◌+◌, ◌-◌, Bool, true, false, ◌&&◌, List, [], ◌∷◌, ◌++◌, Option, none, some, length, get_elem?,
  leb, ltb, if◌then◌else◌,
}

-- The two constructors: with no previous stack, and on top of one.
pub data Microstack (A : Type 0) : Type 0 where
  bottom : List A → Microstack A
  above : Microstack A → List A → Microstack A

module _ {A : Type 0} where
  unfoldable pub depth : Microstack A → ℕ
  depth (bottom items) = 1
  depth (above prev items) = depth prev + 1

  unfoldable pub end_pos : Microstack A → ℕ
  end_pos (bottom items) = 0 + length items
  end_pos (above prev items) = end_pos prev + length items

  abbrev pub start_pos : Microstack A → ℕ
  start_pos (bottom items) = 0
  start_pos (above prev items) = end_pos prev

  abbrev pub unwind : Microstack A → Option (Microstack A)
  unwind (bottom items) = none
  unwind (above prev items) = some prev

  -- `operator[]`. Below the bottom there is nothing to look into.
  unfoldable pub at_pos : Microstack A → ℕ → Option A
  at_pos (bottom items) pos =
      if leb 0 pos && ltb pos (end_pos (bottom items)) then get_elem? items (pos - 0) else none
  at_pos (above prev items) pos =
      let below = at_pos prev pos in
      if leb (end_pos prev) pos && ltb pos (end_pos (above prev items))
      then get_elem? items (pos - end_pos prev)
      else if ltb pos (end_pos prev)
      then below
      else none
