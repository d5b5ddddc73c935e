-- ===== src/Cache/FirstLevel/Size.antt =====
-- How large the first-level cache gets, and what it gives back.
use nexus_commerce.Base.{
  ℕ, ◌+◌, ◌≡◌, ◌≤◌, refl, ap, ◌∙◌, false, Option, none, some, String, List, [], ◌∷◌, ltb, leb,
  str_eq, str_eq_self, length, All, if◌then◌else◌, Bool-cases, inl, inr, arith, leb→lt,
}
use nexus_commerce.Cache.FirstLevel.{
  L1Entry, L1Store, map_get, map_delete, map_set, get_entry, l1_get, evict_oldest, l1_set, L1Call,
  get, set, del, clear, l1_call,
}

abbrev pub HasKeys : {V : Type 0} → L1Store V → Type 0
HasKeys s = All (λ p. str_eq p.0 "" ≡ false) s

-- The keys that are set are not the empty text.
abbrev pub SetsKeys : {V : Type 0} → List (L1Call V) → Type 0
SetsKeys [] = Unit
SetsKeys (set now key v ttl_ms ∷ calls) = (str_eq key "" ≡ false) × SetsKeys calls
SetsKeys (_ ∷ calls) = SetsKeys calls

abbrev pub l1_calls : {V : Type 0} → ℕ → List (L1Call V) → L1Store V → L1Store V
l1_calls max_size [] s = s
l1_calls max_size (call ∷ calls) s = l1_calls max_size calls (l1_call max_size call s)

length-map_delete : {V : Type 0} (k : String) (s : L1Store V) → length (map_delete k s) ≤ length s
length-map_delete k [] = omega arith
length-map_delete k ((j, e) ∷ s) = elim (Bool-cases (str_eq j k)) [
  | inl hit ↦ rw hit (omega arith)
  | inr miss ↦ rw miss (omega (arith, length-map_delete k s))
]

map_delete-HasKeys :
    {V : Type 0} (k : String) (s : L1Store V) → HasKeys s → HasKeys (map_delete k s)
map_delete-HasKeys k [] h = tt
map_delete-HasKeys k ((j, e) ∷ s) h = elim (Bool-cases (str_eq j k)) [
  | inl hit ↦ rw hit h.1
  | inr miss ↦ rw miss (h.0, map_delete-HasKeys k s h.1)
]

length-map_set :
    {V : Type 0} (k : String) (e : L1Entry V) (s : L1Store V)
    → length (map_set k e s) ≤ length s + 1
length-map_set k e [] = omega arith
length-map_set k e ((j, e') ∷ s) = elim (Bool-cases (str_eq j k)) [
  | inl hit ↦ rw hit (omega arith)
  | inr miss ↦ rw miss (omega (arith, length-map_set k e s))
]

map_set-HasKeys :
    {V : Type 0} (k : String) (e : L1Entry V) (s : L1Store V)
    → str_eq k "" ≡ false
    → HasKeys s
    → HasKeys (map_set k e s)
map_set-HasKeys k e [] full h = (full, tt)
map_set-HasKeys k e ((j, e') ∷ s) full h = elim (Bool-cases (str_eq j k)) [
  | inl hit ↦ rw hit (h.0, h.1)
  | inr miss ↦ rw miss (h.0, map_set-HasKeys k e s full h.1)
]

-- With keys that are not empty, the eviction makes room.
evict_oldest-eq :
    {V : Type 0} (oldest : String) (e : L1Entry V) (s : L1Store V)
    → str_eq oldest "" ≡ false
    → evict_oldest ((oldest, e) ∷ s) ≡ s
evict_oldest-eq oldest e s full = let self = str_eq_self oldest in rw (full, self) refl

at_capacity :
    {V : Type 0} (max_size : ℕ) (k : String) (e : L1Entry V) (s : L1Store V)
    → 1 ≤ max_size
    → str_eq k "" ≡ false
    → HasKeys s
    → length s ≤ max_size
    → let s' = map_set k e (evict_oldest s) in HasKeys s' × (length s' ≤ max_size)
at_capacity max_size k e [] room full h fits = ((full, tt), omega (arith, room))
at_capacity max_size k e ((j, e') ∷ s) room full h fits =
    rw (evict_oldest-eq j e' s h.0)
      (map_set-HasKeys k e s full h.1, omega (arith, length-map_set k e s, fits))

l1_set-fits :
    {V : Type 0} (max_size now ttl_ms : ℕ) (k : String) (v : V) (s : L1Store V)
    → 1 ≤ max_size
    → str_eq k "" ≡ false
    → HasKeys s
    → length s ≤ max_size
    → let s' = l1_set max_size now k v ttl_ms s in HasKeys s' × (length s' ≤ max_size)
l1_set-fits max_size now ttl_ms k v s room full h fits =
    let e : L1Entry _ = record { value = v; expires_at = now + ttl_ms } in
    elim (Bool-cases (leb max_size (length s))) [
      | inr below ↦
          let lt = leb→lt max_size (length s) below in
          rw below (map_set-HasKeys k e s full h, omega (arith, length-map_set k e s, lt))
      | inl at_limit ↦ rw at_limit (at_capacity max_size k e s room full h fits)
    ]

get_entry-fits :
    {V : Type 0} (max_size now : ℕ) (k : String) (o : Option (L1Entry V)) (s : L1Store V)
    → HasKeys s
    → length s ≤ max_size
    → let s' = (get_entry now k o s).0 in HasKeys s' × (length s' ≤ max_size)
get_entry-fits max_size now k none s h fits = (h, fits)
get_entry-fits max_size now k (some e) s h fits = elim (Bool-cases (ltb e.expires_at now)) [
  | inl old ↦ rw old (map_delete-HasKeys k s h, omega (arith, length-map_delete k s, fits))
  | inr alive ↦ rw alive (h, fits)
]

-- A cache that holds at most its maximum (at least one entry) holds at most that after any calls, as
-- long as no key is the empty text, the one key that is never evicted.
pub l1_call-fits :
    {V : Type 0} (max_size : ℕ) (calls : List (L1Call V)) (s : L1Store V)
    → 1 ≤ max_size
    → SetsKeys calls
    → HasKeys s
    → length s ≤ max_size
    → length (l1_calls max_size calls s) ≤ max_size
l1_call-fits max_size [] s room full h fits = fits
l1_call-fits max_size (get now key ∷ calls) s room full h fits =
    let (h', fits') = get_entry-fits max_size now key (map_get key s) s h fits in
    l1_call-fits max_size calls (l1_get now key s).0 room full h' fits'
l1_call-fits max_size (set now key v ttl_ms ∷ calls) s room full h fits =
    let (h', fits') = l1_set-fits max_size now ttl_ms key v s room full.0 h fits in
    l1_call-fits max_size calls (l1_set max_size now key v ttl_ms s) room full.1 h' fits'
l1_call-fits max_size (del key ∷ calls) s room full h fits =
    l1_call-fits max_size calls (map_delete key s) room full (map_delete-HasKeys key s h)
      (omega (arith, length-map_delete key s, fits))
l1_call-fits max_size (clear ∷ calls) s room full h fits =
    l1_call-fits max_size calls [] room full tt (omega arith)

map_get-map_set :
    {V : Type 0} (k : String) (e : L1Entry V) (s : L1Store V) → map_get k (map_set k e s) ≡ some e
map_get-map_set k e [] = let self = str_eq_self k in rw self refl
map_get-map_set k e ((j, e') ∷ s) = elim (Bool-cases (str_eq j k)) [
  | inl hit ↦ rw (hit, hit) refl
  | inr miss ↦ rw (miss, miss) (map_get-map_set k e s)
]

-- What is set is got back, and nothing changes by it, up to the end of its time to live, whatever
-- the cache held and whether or not it had to evict.
pub l1_get-l1_set :
    {V : Type 0} (max_size now later ttl_ms : ℕ) (k : String) (v : V) (s : L1Store V)
    → later ≤ now + ttl_ms
    → let s' = l1_set max_size now k v ttl_ms s in l1_get later k s' ≡ (s', some v)
l1_get-l1_set max_size now later ttl_ms k v s alive =
    let e : L1Entry _ = record { value = v; expires_at = now + ttl_ms } in
    let kept = if leb max_size (length s) then evict_oldest s else s in
    let live : ltb (now + ttl_ms) later ≡ false = ground arith in
    ap (λ o. get_entry later k o (map_set k e kept)) (map_get-map_set k e kept) ∙ (rw live refl)
