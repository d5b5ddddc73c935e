-- ===== src/Notification/RateLimiter/SortedSet.antt =====
-- The sorted sets of Redis, as far as the rate limiter uses them.
use nexus_commerce.Base.{
  ℕ, ◌+◌, ◌≤◌, ◌≡◌, Bool, false, Option, none, some, List, [], ◌∷◌, String, ltb, length, str_eq,
  All, ◌||◌, if◌then◌else◌,
}

-- How many scores lie above `c`.
abbrev pub above : ℕ → List ℕ → ℕ
above c [] = 0
above c (t ∷ ts) = (if ltb c t then 1 else 0) + above c ts

-- The scores above `c`.
abbrev pub keep_above : ℕ → List ℕ → List ℕ
keep_above c [] = []
keep_above c (t ∷ ts) = if ltb c t then t ∷ keep_above c ts else keep_above c ts

abbrev pub IsAscending : List ℕ → Type 0
IsAscending [] = Unit
IsAscending (t ∷ ts) = All (λ u. t ≤ u) ts × IsAscending ts

abbrev pub head? : List ℕ → Option ℕ
head? [] = none
head? (t ∷ ts) = some t

pub record SortedSetOps : Type 1 where
  pub Z : Type 0
  pub empty : Z
  -- ZREMRANGEBYSCORE key 0 hi
  pub remove_up_to : ℕ → Z → Z
  -- ZCARD key
  pub card : Z → ℕ
  -- ZRANGE key 0 0 WITHSCORES
  pub first_score : Z → Option ℕ
  -- ZADD key score member
  pub add : ℕ → String → Z → Z
  -- The scores in the order of ZRANGE, and whether a member is in the set: what the laws speak of.
  pub scores : Z → List ℕ
  pub has : String → Z → Bool
  pub scores-empty : scores empty ≡ []
  pub has-empty : (m : String) → has m empty ≡ false
  pub scores-remove_up_to : (hi : ℕ) (z : Z) → scores (remove_up_to hi z) ≡ keep_above hi (scores z)
  pub has-remove_up_to :
      (m : String) (hi : ℕ) (z : Z) → has m z ≡ false → has m (remove_up_to hi z) ≡ false
  pub card-eq-length : (z : Z) → card z ≡ length (scores z)
  pub first_score-eq-head? : (z : Z) → first_score z ≡ head? (scores z)
  pub scores-IsAscending : (z : Z) → IsAscending (scores z)
  -- A member that is not in the set is one more element.
  pub above-add :
      (c t : ℕ) (m : String) (z : Z)
      → has m z ≡ false
      → above c (scores (add t m z)) ≡ (if ltb c t then 1 else 0) + above c (scores z)
  pub length-add :
      (t : ℕ) (m : String) (z : Z)
      → has m z ≡ false
      → length (scores (add t m z)) ≡ length (scores z) + 1
  pub scores-add-le :
      (t hi : ℕ) (m : String) (z : Z)
      → t ≤ hi
      → All (λ s. s ≤ hi) (scores z)
      → All (λ s. s ≤ hi) (scores (add t m z))
  pub has-add : (m n : String) (t : ℕ) (z : Z) → has n (add t m z) ≡ (str_eq m n || has n z)
