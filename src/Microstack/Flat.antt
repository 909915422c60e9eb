-- ===== src/Microstack/Flat.antt =====
-- The positions of include/hypercomm/components/microstack.hpp.
use hypercomm.Base.{List, ◌++◌}
use hypercomm.Microstack.{Microstack, bottom, above}

module _ {A : Type 0} where
  -- The items from the bottom up.
  abbrev pub flatten : Microstack A → List A
  flatten (bottom items) = items
  flatten (above prev items) = flatten prev ++ items
