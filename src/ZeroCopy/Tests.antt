-- ===== src/ZeroCopy/Tests.antt =====
-- Endpoints, buffers and requests are numbers.
use hypercomm.Base.{ℕ, [], ◌∷◌, List, nat_eq}
use hypercomm.ZeroCopy.{Call, manual, post, request, run, fresh}
use hypercomm.ZeroCopy.Matching.{IsMatched, fresh-IsMatched, run-IsMatched}

-- A small buffer comes first, and the second one serves the request.
abbrev calls : List (Call ℕ ℕ ℕ)
calls =
    manual 1 ∷ post 1 20 8 ∷ request 1 30 16 ∷ post 1 21 32 ∷ request 1 31 4 ∷ request 2 32 9 ∷ []

run-IsMatched_example : IsMatched ((30, 16) ∷ (31, 4) ∷ (32, 9) ∷ []) (run calls fresh)
run-IsMatched_example = run-IsMatched calls [] fresh fresh-IsMatched
