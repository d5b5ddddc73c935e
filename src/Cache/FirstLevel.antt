-- ===== src/Cache/FirstLevel.antt =====
-- services/user-service/src/cache/cacheManager.ts, the class L1Cache. A Map is the list of its
-- entries in the order of insertion, which is the order of its `keys()`.
pub mod Size
mod Tests
use nexus_commerce.Base.{
  ℕ, ◌+◌, Bool, true, false, Option, none, some, String, List, [], ◌∷◌, ltb, leb, str_eq, length,
  if◌then◌else◌,
}

-- `L1Entry`
pub record L1Entry (V : Type 0) : Type 0 where
  pub value : V
  pub expires_at : ℕ

abbrev pub L1Store : Type 0 → Type 0
L1Store V = List (String × L1Entry V)

abbrev pub map_get : {V : Type 0} → String → L1Store V → Option (L1Entry V)
map_get k [] = none
map_get k ((j, e) ∷ s) = if str_eq j k then some e else map_get k s

abbrev pub map_delete : {V : Type 0} → String → L1Store V → L1Store V
map_delete k [] = []
map_delete k ((j, e) ∷ s) = if str_eq j k then s else (j, e) ∷ map_delete k s

abbrev pub map_set : {V : Type 0} → String → L1Entry V → L1Store V → L1Store V
map_set k e [] = (k, e) ∷ []
map_set k e ((j, e') ∷ s) = if str_eq j k then (j, e) ∷ s else (j, e') ∷ map_set k e s

abbrev pub get_entry :
    {V : Type 0} → ℕ → String → Option (L1Entry V) → L1Store V → L1Store V × Option V
get_entry now key none s = (s, none)
get_entry now key (some e) s =
    if ltb e.expires_at now then (map_delete key s, none) else (s, some e.value)

-- `L1Cache.get`
abbrev pub l1_get : {V : Type 0} → ℕ → String → L1Store V → L1Store V × Option V
l1_get now key s = get_entry now key (map_get key s) s

-- `if (oldestKey)`: there is a key, and it is not the empty text.
abbrev pub evict_oldest : {V : Type 0} → L1Store V → L1Store V
evict_oldest [] = []
evict_oldest ((oldest, e) ∷ s) =
    if str_eq oldest "" then (oldest, e) ∷ s else map_delete oldest ((oldest, e) ∷ s)

-- `L1Cache.set`
abbrev pub l1_set : {V : Type 0} → ℕ → ℕ → String → V → ℕ → L1Store V → L1Store V
l1_set max_size now key v ttl_ms s =
    map_set key (record { value = v; expires_at = now + ttl_ms })
      (if leb max_size (length s) then evict_oldest s else s)

-- The calls of the cache.
pub data L1Call (V : Type 0) : Type 0 where
  get : ℕ → String → L1Call V
  set : ℕ → String → V → ℕ → L1Call V
  del : String → L1Call V
  clear : L1Call V

abbrev pub l1_call : {V : Type 0} → ℕ → L1Call V → L1Store V → L1Store V
l1_call max_size (get now key) s = (l1_get now key s).0
l1_call max_size (set now key v ttl_ms) s = l1_set max_size now key v ttl_ms s
l1_call max_size (del key) s = map_delete key s
l1_call max_size clear s = []
