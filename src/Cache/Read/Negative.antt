-- ===== src/Cache/Read/Negative.antt =====
-- What a look-up that found nothing does to the look-ups after it.
use nexus_commerce.Base.{
  ℕ, ◌+◌, ◌*◌, ◌≡◌, ◌<◌, refl, sym, ap, ◌∙◌, false, Option, none, some, String, [], ◌∷◌, str_eq,
  str_eq→eq, str_eq_self, leb, lt→leb, length, Bool-cases, inl, inr, arith, none-ne-some,
}
use Prim.Native.String.{◌++◌ as text_append}
use text.Mathlib.TextLemmas.{append_cancel_left, append-nil as text_append-nil, cons≢nil}
use nexus_commerce.Redis.{RedisOps, live}
use nexus_commerce.Cache.FirstLevel.{
  L1Store, L1Entry, map_get, map_delete, map_set, l1_get, l1_set, get_entry, evict_oldest,
}
use nexus_commerce.Cache.Read.{
  Cached, not_found, negative_cache_key, ttl_negative_cache, l1_ttl_ms, l1_max_size, no_faults,
  Caches, fetched, read_l2_negative, read_l2, read_l1_negative, read_l1, cache_get,
}

negative_cache_key-other : (key : String) → str_eq (negative_cache_key key) key ≡ false
negative_cache_key-other key = elim (Bool-cases (str_eq (negative_cache_key key) key)) [
  | inr other ↦ other
  | inl same ↦
      let e : text_append key ":notfound" ≡ text_append key String.[] =
        str_eq→eq (negative_cache_key key) key same ∙ sym (text_append-nil key) in
      absurd (cons≢nil (append_cancel_left key ":notfound" String.[] e))
]

module _ {V : Type 0} where
  map_delete-none :
      (j k : String) (s : L1Store V) → map_get k s ≡ none → map_get k (map_delete j s) ≡ none
  map_delete-none j k [] h = refl
  map_delete-none j k ((i, e) ∷ s) h = elim (Bool-cases (str_eq i k)) [
    | inl hit ↦ (let e' : some e ≡ none = rw hit at h in none-ne-some e _ (some e) e' refl)
    | inr miss ↦ elim (Bool-cases (str_eq i j)) [
      | inl gone ↦ rw gone (rw miss at h)
      | inr kept ↦ rw (kept, miss) (map_delete-none j k s (rw miss at h))
    ]
  ]

  evict_oldest-none :
      (k : String) (s : L1Store V) → map_get k s ≡ none → map_get k (evict_oldest s) ≡ none
  evict_oldest-none k [] h = refl
  evict_oldest-none k ((i, e) ∷ s) h = elim (Bool-cases (str_eq i "")) [
    | inl empty ↦ rw empty h
    | inr named ↦ rw named (map_delete-none i k ((i, e) ∷ s) h)
  ]

  map_set-other :
      (j k : String) (e : L1Entry V) (s : L1Store V)
      → str_eq j k ≡ false
      → map_get k s ≡ none
      → map_get k (map_set j e s) ≡ none
  map_set-other j k e [] other h = rw other refl
  map_set-other j k e ((i, e') ∷ s) other h = elim (Bool-cases (str_eq i k)) [
    | inl hit ↦ (let g : some e' ≡ none = rw hit at h in none-ne-some e' _ (some e') g refl)
    | inr miss ↦ elim (Bool-cases (str_eq i j)) [
      | inl same ↦ rw (same, miss) (rw miss at h)
      | inr diff ↦ rw (diff, miss) (map_set-other j k e s other (rw miss at h))
    ]
  ]

  l1_set-other :
      (max_size now : ℕ) (j k : String) (v : V) (ttl : ℕ) (s : L1Store V)
      → str_eq j k ≡ false
      → map_get k s ≡ none
      → map_get k (l1_set max_size now j v ttl s) ≡ none
  l1_set-other max_size now j k v ttl s other h = elim (Bool-cases (leb max_size (length s))) [
    | inl full ↦ rw full (
        map_set-other j k (record { value = v; expires_at = now + ttl }) (evict_oldest s) other
          (evict_oldest-none k s h))
    | inr room ↦
        rw room (map_set-other j k (record { value = v; expires_at = now + ttl }) s other h)
  ]

  l1_get-none :
      (now : ℕ) (k : String) (s : L1Store V) → map_get k s ≡ none → l1_get now k s ≡ (s, none)
  l1_get-none now k s h = ap (λ o. get_entry now k o s) h

module _ {V : Type 0} (redis : RedisOps String (Cached V) str_eq) where
  open redis use {Store, entry, get, set, get-eq-live, entry-set}

  -- Neither level knows the key.
  abbrev pub IsFresh : String → Caches redis → Type 0
  IsFresh key s =
      (map_get key s.l1 ≡ none)
      × (map_get (negative_cache_key key) s.l1 ≡ none)
      × (entry key s.l2 ≡ none)
      × (entry (negative_cache_key key) s.l2 ≡ none)

  get-none : (now : ℕ) (key : String) (s : Store) → entry key s ≡ none → get now key s ≡ none
  get-none now key s h = get-eq-live now key s ∙ ap (live now) h

  -- On a key that neither level knows the database is asked.
  pub cache_get-fresh :
      (now : ℕ) (key : String) (ttl : ℕ) (answer : Option V) (s : Caches redis)
      → IsFresh key s
      → cache_get redis now key ttl no_faults answer s
        ≡ fetched redis now key ttl no_faults answer s
  unfolding cache_get
  cache_get-fresh now key ttl answer s (l1, l1_negative, l2, l2_negative) =
      ap (λ p. read_l1 redis now key ttl no_faults answer p s) (l1_get-none now key s.l1 l1)
      ∙ ap (λ p. read_l1_negative redis now key ttl no_faults answer p s)
          (l1_get-none now (negative_cache_key key) s.l1 l1_negative)
      ∙ ap (λ o. read_l2 redis now key ttl no_faults answer o s) (get-none now key s.l2 l2)
      ∙ ap (λ o. read_l2_negative redis now key ttl no_faults answer o s)
          (get-none now (negative_cache_key key) s.l2 l2_negative)

  -- The caches after a look-up that found nothing.
  abbrev marked : ℕ → String → ℕ → Caches redis → Caches redis
  marked now key ttl s = (fetched redis now key ttl no_faults none s).0

  read_negative-marked :
      (now later : ℕ) (key : String) (ttl : ℕ) (answer : Option V) (s : Caches redis)
      (p : L1Store (Cached V) × Option (Cached V))
      → entry key s.l2 ≡ none
      → later < now + ttl_negative_cache * 1000
      → (read_l1_negative redis later key ttl no_faults answer p (marked now key ttl s)).1 ≡ none
  read_negative-marked now later key ttl answer s (l1, some c) l2 soon = refl
  read_negative-marked now later key ttl answer s (l1, none) l2 soon =
      let neg = negative_cache_key key in
      let other = negative_cache_key-other key in
      let self = str_eq_self neg in
      let l2' = set now neg not_found ttl_negative_cache s.l2 in
      let in_time : leb (now + ttl_negative_cache * 1000) later ≡ false =
        lt→leb (now + ttl_negative_cache * 1000) later (omega arith) in
      let no_value : get later key l2' ≡ none =
        get-none later key l2'
          (entry-set now neg not_found ttl_negative_cache s.l2 key ∙ (rw other l2)) in
      let held : entry neg l2' ≡ some (not_found, now + ttl_negative_cache * 1000) =
        entry-set now neg not_found ttl_negative_cache s.l2 neg ∙ (rw self refl) in
      let negative : get later neg l2' ≡ some not_found =
        get-eq-live later neg l2' ∙ ap (live later) held ∙ (rw in_time refl) in
      rw no_value (rw negative refl)

  -- A look-up that finds nothing hides the key for a minute: whatever the database holds by then, a
  -- look-up within 60 seconds finds nothing, if nothing invalidates the key and Redis is up.
  pub cache_get-hides :
      (now later : ℕ) (key : String) (ttl : ℕ) (answer : Option V) (s : Caches redis)
      → IsFresh key s
      → later < now + 60 * 1000
      → (cache_get redis later key ttl no_faults answer
          (cache_get redis now key ttl no_faults none s).0).1
        ≡ none
  unfolding cache_get
  cache_get-hides now later key ttl answer s (l1, l1_negative, l2, l2_negative) soon =
      let first = cache_get-fresh now key ttl none s (l1, l1_negative, l2, l2_negative) in
      let s1 = marked now key ttl s in
      let absent : map_get key s1.l1 ≡ none =
        l1_set-other l1_max_size now (negative_cache_key key) key not_found l1_ttl_ms s.l1
          (negative_cache_key-other key) l1 in
      ap (λ (a : Caches redis × Option V). (cache_get redis later key ttl no_faults answer a.0).1)
        first
      ∙ ap (λ p. (read_l1 redis later key ttl no_faults answer p s1).1)
          (l1_get-none later key s1.l1 absent)
      ∙ read_negative-marked now later key ttl answer s
          (l1_get later (negative_cache_key key) s1.l1) l2 soon
