-- ===== src/Notification/RateLimiter/Window.antt =====
-- The promise of the sliding window: no window of time holds more admissions than the limit.
use nexus_commerce.Base.{
  ℕ, ◌+◌, ◌-◌, ◌≤◌, ◌<◌, ◌≡◌, refl, Bool, true, false, Option, none, some, List, [], ◌∷◌, String,
  ltb, leb, str_eq, All, All-map, All-map₂, All-intro, length, if◌then◌else◌, arith, Bool-cases,
  ◌⊎◌, inl, inr, leb→le, sym, ◌∙◌,
}
use nexus_commerce.Notification.RateLimiter.SortedSet.{SortedSetOps, above, keep_above}
use nexus_commerce.Notification.RateLimiter.{Options, Bucket, new, live_set, pruned, check}

-- How many times lie after `w` and not after `e`.
abbrev pub within : ℕ → ℕ → List ℕ → ℕ
within w e [] = 0
within w e (t ∷ ts) = (if ltb w t then (if leb t e then 1 else 0) else 0) + within w e ts

within-le-above : (w e : ℕ) (ts : List ℕ) → within w e ts ≤ above w ts
within-le-above w e [] = omega arith
within-le-above w e (t ∷ ts) = ground (arith, within-le-above w e ts)

pub above-le-length : (c : ℕ) (ts : List ℕ) → above c ts ≤ length ts
above-le-length c [] = omega arith
above-le-length c (t ∷ ts) = ground (arith, above-le-length c ts)

above_antitone : (a b : ℕ) (ts : List ℕ) → a ≤ b → above b ts ≤ above a ts
above_antitone a b [] h = omega arith
above_antitone a b (t ∷ ts) h = ground (arith, above_antitone a b ts h)

above-keep_above : (hi c : ℕ) (ts : List ℕ) → hi ≤ c → above c (keep_above hi ts) ≡ above c ts
above-keep_above hi c [] h = refl
above-keep_above hi c (t ∷ ts) h = ground (arith, above-keep_above hi c ts h)

above_none : (c : ℕ) (ts : List ℕ) → All (λ t. t ≤ c) ts → above c ts ≡ 0
above_none c [] h = refl
above_none c (t ∷ ts) h = ground (arith, above_none c ts h.1)

-- A call of `check`: its time and its member.
abbrev pub Call : Type 0
Call = ℕ × String

abbrev pub IsOrdered : ℕ → List Call → Type 0
IsOrdered now [] = Unit
IsOrdered now ((t, m) ∷ calls) = (now ≤ t) × IsOrdered t calls

abbrev pub HasNone : (String → Bool) → List Call → Type 0
HasNone p calls = All (λ c. p c.1 ≡ false) calls

-- The members that the calls generate are distinct, as `randomUUID` makes them.
abbrev pub IsDistinct : List Call → Type 0
IsDistinct [] = Unit
IsDistinct ((t, m) ∷ calls) = HasNone (str_eq m) calls × IsDistinct calls

module _ (ops : SortedSetOps) where
  open ops use {
    Z, empty, remove_up_to, card, add, scores, has, scores-empty, has-empty, scores-remove_up_to,
    has-remove_up_to, card-eq-length, above-add, has-add,
  }

  -- The calls in turn, with the times of those that were admitted so far.
  unfoldable pub check_all : Options → List Call → Bucket ops → List ℕ → Bucket ops × List ℕ
  check_all o [] b admitted = (b, admitted)
  check_all o ((now, m) ∷ calls) b admitted =
      let (b', r) = check ops o true now m b in
      check_all o calls b' (if r.allowed then now ∷ admitted else admitted)

  record Inv (o : Options) (now : ℕ) (b : Bucket ops) (log : List ℕ) : Type 0 where
    past : All (λ t. t ≤ now) log
    recent : (c : ℕ) → now ≤ c + o.window_ms → above c (scores b.set) ≡ above c log
    expiry : (t : ℕ) → b.expires_at ≡ some t → All (λ u. u + o.window_ms < t) log
    bounded : (w : ℕ) → within w (w + o.window_ms) log ≤ o.limit

  above-live_set :
      (o : Options) (now now' c : ℕ) (expires : Option ℕ) (z : Z) (log : List ℕ)
      → above c (scores z) ≡ above c log
      → ((t : ℕ) → expires ≡ some t → All (λ u. u + o.window_ms < t) log)
      → now' ≤ c + o.window_ms
      → above c (scores (live_set ops now' expires z)) ≡ above c log
  above-live_set o now now' c none z log same gone h = same
  above-live_set o now now' c (some t) z log same gone h = elim (Bool-cases (leb t now')) [
    | inl past ↦
        rw (past, scores-empty)
          (sym (
            above_none c log
              (All-map _ _ log (λ u lt. omega (arith, leb→le t now' past)) (gone t refl))))
    | inr live ↦ rw live same
  ]

  above-pruned :
      (o : Options) (now now' c : ℕ) (b : Bucket ops) (log : List ℕ)
      → Inv o now b log
      → now ≤ now'
      → now' ≤ c + o.window_ms
      → above c (scores (pruned ops o now' b)) ≡ above c log
  above-pruned o now now' c b log inv le h =
      let live =
        above-live_set o now now' c b.expires_at b.set log (inv.recent c (omega arith)) inv.expiry
          h in
      elim (Bool-cases (leb o.window_ms now')) [
        | inl long ↦
            rw (long, scores-remove_up_to)
              (above-keep_above (now' - o.window_ms) c _ (omega arith) ∙ live)
        | inr short ↦ rw short live
      ]

  has-live_set :
      (now : ℕ) (expires : Option ℕ) (z : Z) (m : String)
      → has m z ≡ false
      → has m (live_set ops now expires z) ≡ false
  has-live_set now none z m h = h
  has-live_set now (some t) z m h = elim (Bool-cases (leb t now)) [
    | inl past ↦ rw past (has-empty m)
    | inr live ↦ rw live h
  ]

  has-pruned :
      (o : Options) (now : ℕ) (b : Bucket ops) (m : String)
      → has m b.set ≡ false
      → has m (pruned ops o now b) ≡ false
  has-pruned o now b m h =
      let live = has-live_set now b.expires_at b.set m h in
      elim (Bool-cases (leb o.window_ms now)) [
        | inl long ↦ rw long (has-remove_up_to m _ _ live)
        | inr short ↦ rw short live
      ]

  -- What `check` does to a bucket, and whether it admits.
  check-eq :
      (o : Options) (now : ℕ) (m : String) (b : Bucket ops)
      → let z = pruned ops o now b in
        let (b', r) = check ops o true now m b in
        ((r.allowed ≡ false) × (b' ≡ record b { set = z }))
        ⊎ ((r.allowed ≡ true)
            × (card z < o.limit)
            × (b' ≡ record { set = add now m z; expires_at = some (now + (o.window_ms + 1000)) }))
  unfolding check
  check-eq o now m b = elim (Bool-cases (leb o.limit (card (pruned ops o now b)))) [
    | inl full ↦ inl (rw full, rw full)
    | inr room ↦ inr (rw room, ground arith, rw room)
  ]

  refuse-Inv :
      (o : Options) (now now' : ℕ) (b : Bucket ops) (log : List ℕ)
      → Inv o now b log
      → now ≤ now'
      → Inv o now' (record b { set = pruned ops o now' b }) log
  refuse-Inv o now now' b log inv le = record {
    past = All-map _ _ log (λ t h. omega arith) inv.past;
    recent = λ c h. above-pruned o now now' c b log inv le h;
    expiry = inv.expiry;
    bounded = inv.bounded;
  }

  admit-Inv :
      (o : Options) (now now' : ℕ) (m : String) (b : Bucket ops) (log : List ℕ)
      → Inv o now b log
      → now ≤ now'
      → has m b.set ≡ false
      → card (pruned ops o now' b) < o.limit
      → Inv o now'
          (record {
            set = add now' m (pruned ops o now' b);
            expires_at = some (now' + (o.window_ms + 1000));
          })
          (now' ∷ log)
  admit-Inv o now now' m b log inv le fresh room =
      let z = pruned ops o now' b in
      let past : All (λ t. t ≤ now') log = All-map _ _ log (λ t h. omega arith) inv.past in
      record {
        past = (omega arith, past);
        recent = λ c h. omega (
          arith,
          above-add c now' m z (has-pruned o now' b m fresh),
          above-pruned o now now' c b log inv le h,
        );
        expiry = λ t e.
            let at : now' + (o.window_ms + 1000) ≡ t = cc in
            (omega arith, All-map _ _ log (λ u h. omega arith) past);
        bounded = λ w. ground (
          arith,
          inv.bounded w,
          within-le-above w (w + o.window_ms) log,
          above_antitone (now' - o.window_ms) w log,
          above-pruned o now now' (now' - o.window_ms) b log inv le (omega arith),
          above-le-length (now' - o.window_ms) (scores z),
          card-eq-length z,
        );
      }

  fresh_after :
      (o : Options) (now : ℕ) (m n : String) (b : Bucket ops)
      → str_eq m n ≡ false
      → has n b.set ≡ false
      → has n (check ops o true now m b).0.set ≡ false
  fresh_after o now m n b ne fresh =
      let old = has-pruned o now b n fresh in
      elim (check-eq o now m b) [ inl (_, e) ↦ rw e old | inr (_, _, e) ↦ rw (e, has-add, ne, old) ]

  check_all-Inv :
      (o : Options) (now : ℕ) (calls : List Call) (b : Bucket ops) (log : List ℕ)
      → IsOrdered now calls
      → IsDistinct calls
      → HasNone (λ m. has m b.set) calls
      → Inv o now b log
      → (w : ℕ) → within w (w + o.window_ms) (check_all o calls b log).1 ≤ o.limit
  unfolding check_all
  check_all-Inv o now [] b log ordered distinct fresh inv w = inv.bounded w
  check_all-Inv o now ((now', m) ∷ calls) b log ordered distinct fresh inv w =
      let (b', r) = check ops o true now' m b in
      let still : HasNone (λ n. has n b'.set) calls =
        All-map₂ (λ c. str_eq m c.1 ≡ false) (λ c. has c.1 b.set ≡ false) _ calls
          (λ c ne old. fresh_after o now' m c.1 b ne old) distinct.0 fresh.1 in
      check_all-Inv o now' calls b' (if r.allowed then now' ∷ log else log) ordered.1 distinct.1
        still
        (elim (check-eq o now' m b) [
          | inl (no_slot, e) ↦ rw (no_slot, e) (refuse-Inv o now now' b log inv ordered.0)
          | inr (slot, room, e) ↦
              rw (slot, e) (admit-Inv o now now' m b log inv ordered.0 fresh.0 room)
        ])
        w

  -- Of any calls for one identifier, made at times in order and with Redis reachable, those admitted
  -- within any window of `window_ms` are at most `limit`.
  pub check_all-within_limit :
      (o : Options) (calls : List Call)
      → IsOrdered 0 calls
      → IsDistinct calls
      → (w : ℕ) → within w (w + o.window_ms) (check_all o calls (new ops) []).1 ≤ o.limit
  check_all-within_limit o calls ordered distinct =
      check_all-Inv o 0 calls (new ops) [] ordered distinct (All-intro _ calls (λ c. has-empty c.1))
        record {
          past = tt;
          recent = λ c h. rw scores-empty;
          expiry = λ t e. tt;
          bounded = λ w. omega arith;
        }
