-- ===== src/Microstack/Tests.antt =====
-- A stack of two frames.
use hypercomm.Base.{ℕ, [], ◌∷◌}
use hypercomm.Microstack.{Microstack, bottom, above}

abbrev two_frames : Microstack ℕ
two_frames = above (bottom (10 ∷ 11 ∷ [])) (12 ∷ [])
