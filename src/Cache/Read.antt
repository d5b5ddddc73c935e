-- ===== src/Cache/Read.antt =====
-- The read path of services/user-service/src/cache/cacheManager.ts: cacheGet and cacheInvalidate, with the
-- keys of cacheKeys.ts. The circuit breaker around a call of Redis either makes the call or throws, and a
-- call may throw itself: which calls go through is an argument.
pub mod Negative
use nexus_commerce.Base.{
  ℕ, ◌≡◌, Bool, true, false, Option, none, some, String, List, str_eq, if◌then◌else◌,
}
use Prim.Native.String.{◌++◌ as text_append}
use nexus_commerce.Redis.{RedisOps}
use nexus_commerce.Cache.FirstLevel.{L1Store, l1_get, l1_set, map_delete}

-- What is stored: a result, or the mark of a result that was not found
pub data Cached (V : Type 0) : Type 0 where
  value : V → Cached V
  not_found : Cached V

-- `negativeCacheKey`
abbrev pub negative_cache_key : String → String
negative_cache_key key = text_append key ":notfound"

-- The second level's time to live of a profile and of a negative entry, in seconds
abbrev pub ttl_user_profile : ℕ
ttl_user_profile = 300

abbrev pub ttl_negative_cache : ℕ
ttl_negative_cache = 60

abbrev pub l1_ttl_ms : ℕ
l1_ttl_ms = 100

abbrev pub l1_max_size : ℕ
l1_max_size = 1000

-- Which calls of Redis throw in a run of `cacheGet`
pub record Faults : Type 0 where
  pub read : Bool
  pub read_negative : Bool
  pub write : Bool

abbrev pub no_faults : Faults
no_faults = record { read = false; read_negative = false; write = false }

module _ {V : Type 0} (redis : RedisOps String (Cached V) str_eq) where
  open redis use {Store, get, set, del}

  pub record Caches : Type 0 where
    pub l1 : L1Store (Cached V)
    pub l2 : Store

  abbrev pub set_l1 : ℕ → String → Cached V → Caches → Caches
  set_l1 now key v s = record s { l1 = l1_set l1_max_size now key v l1_ttl_ms s.l1 }

  abbrev pub set_l2 : Bool → ℕ → String → Cached V → ℕ → Caches → Caches
  set_l2 throws now key v ttl s = if throws then s else record s { l2 = set now key v ttl s.l2 }

  -- From the answer of the database on
  abbrev pub fetched : ℕ → String → ℕ → Faults → Option V → Caches → Caches × Option V
  fetched now key ttl f (some v) s =
      (set_l1 now key (value v) (set_l2 f.write now key (value v) ttl s), some v)
  fetched now key ttl f none s = (
    set_l1 now (negative_cache_key key) not_found
        (set_l2 f.write now (negative_cache_key key) not_found ttl_negative_cache s),
    none,
  )

  -- From the negative entry of Redis on
  abbrev pub read_l2_negative :
      ℕ → String → ℕ → Faults → Option V → Option (Cached V) → Caches → Caches × Option V
  read_l2_negative now key ttl f answer (some c) s =
      (set_l1 now (negative_cache_key key) not_found s, none)
  read_l2_negative now key ttl f answer none s = fetched now key ttl f answer s

  -- From the entry of Redis on
  abbrev pub read_l2 :
      ℕ → String → ℕ → Faults → Option V → Option (Cached V) → Caches → Caches × Option V
  read_l2 now key ttl f answer (some (value v)) s = (set_l1 now key (value v) s, some v)
  read_l2 now key ttl f answer _ s =
      if f.read_negative
      then fetched now key ttl f answer s
      else read_l2_negative now key ttl f answer (get now (negative_cache_key key) s.l2) s

  -- From the negative entry of the first level on
  abbrev pub read_l1_negative :
      ℕ
      → String
      → ℕ
      → Faults
      → Option V
      → L1Store (Cached V) × Option (Cached V)
      → Caches
      → Caches × Option V
  read_l1_negative now key ttl f answer (l1, some c) s = (record s { l1 = l1 }, none)
  read_l1_negative now key ttl f answer (l1, none) s =
      let s' = record s { l1 = l1 } in
      if f.read
      then fetched now key ttl f answer s'
      else read_l2 now key ttl f answer (get now key s.l2) s'

  abbrev pub read_l1 :
      ℕ
      → String
      → ℕ
      → Faults
      → Option V
      → L1Store (Cached V) × Option (Cached V)
      → Caches
      → Caches × Option V
  read_l1 now key ttl f answer (l1, some (value v)) s = (record s { l1 = l1 }, some v)
  read_l1 now key ttl f answer (l1, _) s =
      read_l1_negative now key ttl f answer (l1_get now (negative_cache_key key) l1)
        (record s { l1 = l1 })

  -- `cacheGet`, with the answer that `fetch` gives
  unfoldable pub cache_get : ℕ → String → ℕ → Faults → Option V → Caches → Caches × Option V
  cache_get now key ttl f answer s = read_l1 now key ttl f answer (l1_get now key s.l1) s

  -- `cacheInvalidate`
  abbrev pub cache_invalidate : Bool → String → Caches → Caches
  cache_invalidate throws key s =
      let l1 = map_delete (negative_cache_key key) (map_delete key s.l1) in
      if throws
      then record s { l1 = l1 }
      else record { l1 = l1; l2 = del (negative_cache_key key) (del key s.l2) }
