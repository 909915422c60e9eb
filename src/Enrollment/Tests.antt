-- ===== src/Enrollment/Tests.antt =====
-- Types are numbers, and so are the functions.
use hypercomm.Base.{ℕ, ◌≡◌, refl, some, [], ◌∷◌, List, nat_eq}
use hypercomm.Enrollment.{Enrolled, enroll_all, identify, instantiate_id, no_types}
use hypercomm.Enrollment.Registry.{instantiate-identify, identify-unknown}

abbrev types : List (ℕ × ℕ)
types = (7, 70) ∷ (8, 80) ∷ (9, 90) ∷ []

instantiate-identify_example :
    (r : Enrolled ℕ ℕ) × (enroll_all types no_types ≡ some r)
    × (identify 8 r ≡ (1, r))
    × (instantiate_id 1 r ≡ some 80)
instantiate-identify_example = instantiate-identify types 1 8 80 (refl, (refl, (refl, tt))) refl

identify-unknown_example :
    (r : Enrolled ℕ ℕ) × (enroll_all types no_types ≡ some r)
    × (instantiate_id (identify 5 r).0 (identify 5 r).1 ≡ some 70)
identify-unknown_example =
    identify-unknown 7 70 ((8, 80) ∷ (9, 90) ∷ []) 5 (refl, (refl, (refl, tt))) refl
