-- ===== src/Locality/Lifecycle.antt =====
-- `invalidate_component`, `activate_component` and `destroy` of src/hypercomm/core/locality.cc.
use hypercomm.Base.{ℕ, List, [], ◌∷◌, ◌++◌, nat_eq, Eq, erase}
use hypercomm.Locality.{Locality, Calls}

module _ {P K C X : Type 0} ⦃e : Eq P⦄ (calls : Calls P K C X) where
  noted : ℕ → Locality P K C X → Locality P K C X
  noted id l =
      let l1 = calls.deactivate id l in record l1 { invalidations = l1.invalidations ++ id ∷ [] }

  -- The result of the activation.
  discarded : ℕ → List ℕ → Locality P K C X → Locality P K C X
  discarded id notes l = record l { components = erase id l.components; invalidations = notes }
