-- ===== src/Cache/FirstLevel/Tests.antt =====
-- The first-level cache at a size of two.
use nexus_commerce.Base.{ℕ, List, [], ◌∷◌}
use nexus_commerce.Cache.FirstLevel.{L1Store, L1Call, get, set, del}
use nexus_commerce.Cache.FirstLevel.Size.{l1_calls}

abbrev calls : List (L1Call ℕ)
calls =
    set 0 "a" 1 100 ∷ set 1 "b" 2 100 ∷ set 2 "c" 3 100 ∷ get 50 "b" ∷ del "c" ∷ get 200 "b" ∷ []

abbrev full : L1Store ℕ
full = l1_calls 2 (set 0 "a" 1 100 ∷ set 1 "b" 2 100 ∷ []) []
