-- ===== src/Redis.antt =====
-- The commands GET, SET with EX (or SETEX) and DEL of Redis, which is not part of the repository: an
-- interface with their documented behaviour as its laws. A time is a number of milliseconds, a time
-- to live is in seconds as the commands take it.
use nexus_commerce.Base.{
  ℕ, ◌+◌, ◌*◌, ◌≡◌, ◌≤◌, refl, Bool, true, Option, none, some, leb, if◌then◌else◌, le→leb, leb→le,
  Bool-cases, inl, inr, arith,
}
use mathlib.Core.Option.{some-ne-none}

-- What an entry holds at a time: a value and the time at which it expires.
abbrev pub live : {V : Type 0} → ℕ → Option (V × ℕ) → Option V
live now none = none
live now (some (v, t)) = if leb t now then none else some v

pub record RedisOps (K V : Type 0) (same : K → K → Bool) : Type 1 where
  pub Store : Type 0
  -- The entry of a key, expired or not: what the laws speak of.
  pub entry : K → Store → Option (V × ℕ)
  pub get : ℕ → K → Store → Option V
  pub set : ℕ → K → V → ℕ → Store → Store
  pub del : K → Store → Store
  pub get-eq-live : (now : ℕ) (k : K) (s : Store) → get now k s ≡ live now (entry k s)
  pub entry-set :
      (now : ℕ) (k : K) (v : V) (ttl : ℕ) (s : Store) (j : K)
      → entry j (set now k v ttl s) ≡ (if same k j then some (v, now + ttl * 1000) else entry j s)
  pub entry-del :
      (k : K) (s : Store) (j : K) → entry j (del k s) ≡ (if same k j then none else entry j s)

-- A store as a function: the smallest that keeps the laws.
abbrev pub function_redis : (K V : Type 0) (same : K → K → Bool) → RedisOps K V same
function_redis K V same = record {
  Store = K → Option (V × ℕ);
  entry = λ k s. s k;
  get = λ now k s. live now (s k);
  set = λ now k v ttl s j. if same k j then some (v, now + ttl * 1000) else s j;
  del = λ k s j. if same k j then none else s j;
  get-eq-live = λ now k s. refl;
  entry-set = λ now k v ttl s j. refl;
  entry-del = λ k s j. refl;
}

-- What has expired stays so.
pub live_later :
    {V : Type 0} (now later : ℕ) (e : Option (V × ℕ))
    → now ≤ later
    → live now e ≡ none
    → live later e ≡ none
live_later now later none le h = refl
live_later now later (some (v, t)) le h = elim (Bool-cases (leb t now)) [
  | inl over ↦
      let over' : leb t later ≡ true = le→leb t later (let e = leb→le t now over in omega arith) in
      rw over' refl
  | inr alive ↦ absurd (some-ne-none v (rw alive at h))
]
