-- ===== src/Notification/RateLimiter/RetryAfter.antt =====
-- What `retryAfterMs` tells the caller that was refused.
use nexus_commerce.Base.{
  ℕ, ◌+◌, ◌-◌, ◌≤◌, ◌<◌, ◌≡◌, ◌↔◌, ap, refl, true, false, Option, none, some, List, [], ◌∷◌, String,
  ltb, leb, All, All-map, length, if◌then◌else◌, arith, Bool-cases, inl, inr, leb→le, leb→lt,
}
use nexus_commerce.Notification.RateLimiter.SortedSet.{SortedSetOps, keep_above, IsAscending, head?}
use nexus_commerce.Notification.RateLimiter.{Options, Bucket, live_set, pruned, check, oldest_score}

length-keep_above-le : (c : ℕ) (ts : List ℕ) → length (keep_above c ts) ≤ length ts
length-keep_above-le c [] = omega arith
length-keep_above-le c (t ∷ ts) = ground (arith, length-keep_above-le c ts)

keep_above-All : (c : ℕ) (ts : List ℕ) → All (λ t. c < t) ts → keep_above c ts ≡ ts
keep_above-All c [] h = refl
keep_above-All c (t ∷ ts) h = ground (arith, keep_above-All c ts h.1)

full_before :
    (window t s : ℕ) (ts : List ℕ)
    → IsAscending (s ∷ ts)
    → t < s + window
    → (if leb window t then keep_above (t - window) (s ∷ ts) else s ∷ ts) ≡ s ∷ ts
full_before window t s ts asc early = elim (Bool-cases (leb window t)) [
  | inl long ↦
      let after : t - window < s = omega (arith, leb→le window t long) in
      rw long (
        keep_above-All (t - window) (s ∷ ts)
          (after, All-map (λ u. s ≤ u) (λ u. t - window < u) ts (λ u h. omega arith) asc.0))
  | inr short ↦ rw short
]

-- A full set has room again exactly when its oldest score leaves the window.
room_iff :
    (window limit t : ℕ) (ts : List ℕ)
    → 0 < limit
    → length ts ≡ limit
    → IsAscending ts
    → (length (if leb window t then keep_above (t - window) ts else ts) < limit)
      ↔ (oldest_score (head? ts) + window ≤ t)
room_iff window limit t [] pos full asc = (λ h. absurd (omega arith), λ h. absurd (omega arith))
room_iff window limit t (s ∷ ts) pos full asc = (
  λ h. elim (Bool-cases (leb (s + window) t)) [
    | inl late ↦ leb→le _ _ late
    | inr early ↦
        absurd (omega (arith, ap length (full_before window t s ts asc (leb→lt _ _ early)), h))
  ],
  λ h. ground (arith, length-keep_above-le (t - window) ts),
)

oldest_lt :
    (u w : ℕ) (ts : List ℕ)
    → 0 < length ts
    → All (λ s. s + w < u) ts
    → oldest_score (head? ts) + w < u
oldest_lt u w [] pos h = elim pos [ ]
oldest_lt u w (s ∷ ts) pos h = h.0

All-keep_above : (P : ℕ → Type 0) (c : ℕ) (ts : List ℕ) → All P ts → All P (keep_above c ts)
All-keep_above P c [] h = tt
All-keep_above P c (t ∷ ts) h = elim (Bool-cases (ltb c t)) [
  | inl later ↦ rw later (h.0, All-keep_above P c ts h.1)
  | inr old ↦ rw old (All-keep_above P c ts h.1)
]

module _ (ops : SortedSetOps) where
  open ops use {
    Z, empty, card, add, has, scores-add-le, scores, scores-empty, scores-remove_up_to,
    card-eq-length, first_score-eq-head?, scores-IsAscending, length-add,
  }

  -- The scores are of the past and at most `limit`, and the key outlives them by more than a window.
  pub record IsSettled (o : Options) (now : ℕ) (b : Bucket ops) : Type 0 where
    pub past : All (λ u. u ≤ now) (scores b.set)
    pub outlives : (t : ℕ) → b.expires_at ≡ some t → All (λ u. u + o.window_ms < t) (scores b.set)
    pub at_most : length (scores b.set) ≤ o.limit

  card-live :
      (o : Options) (t : ℕ) (b : Bucket ops)
      → live_set ops t b.expires_at b.set ≡ b.set
      → card (pruned ops o t b)
        ≡ length (
            if leb o.window_ms t then keep_above (t - o.window_ms) (scores b.set) else scores b.set)
  card-live o t b live = elim (Bool-cases (leb o.window_ms t)) [
    | inl long ↦ rw (long, live, card-eq-length, scores-remove_up_to)
    | inr short ↦ rw (short, live, card-eq-length)
  ]

  allowed_iff :
      (o : Options) (t : ℕ) (m : String) (b : Bucket ops)
      → ((check ops o true t m b).1.allowed ≡ true) ↔ (card (pruned ops o t b) < o.limit)
  unfolding check
  allowed_iff o t m b = elim (Bool-cases (leb o.limit (card (pruned ops o t b)))) [
    | inl full ↦
        (rw full (λ h. absurd (ground arith)), λ h. absurd (omega (arith, leb→le _ _ full)))
    | inr room ↦ (λ h. leb→lt _ _ room, λ h. rw room)
  ]

  refused-eq :
      (o : Options) (now : ℕ) (m : String) (b : Bucket ops)
      → (check ops o true now m b).1.allowed ≡ false
      → let z = pruned ops o now b in
        ((check ops o true now m b).0 ≡ record b { set = z })
        × ((check ops o true now m b).1.retry_after_ms
            ≡ oldest_score (head? (scores z)) + o.window_ms - now)
        × (o.limit ≤ card z)
  unfolding check
  refused-eq o now m b h = elim (Bool-cases (leb o.limit (card (pruned ops o now b)))) [
    | inl full ↦ (rw full, rw (full, first_score-eq-head?), leb→le _ _ full)
    | inr room ↦ absurd (let e : true ≡ false = rw room at h in cc)
  ]

  card-expired :
      (o : Options) (t u : ℕ) (z : Z)
      → leb u t ≡ true
      → card (pruned ops o t (record { set = z; expires_at = some u })) ≡ 0
  card-expired o t u z past = elim (Bool-cases (leb o.window_ms t)) [
    | inl long ↦ rw (past, long, card-eq-length, scores-remove_up_to, scores-empty)
    | inr short ↦ rw (past, short, card-eq-length, scores-empty)
  ]

  -- A bucket of `limit` scores that was cleaned at `now` has room at `t` exactly from the time on at
  -- which the oldest of them leaves the window, or the key expires.
  card-lt_iff :
      (o : Options) (now t : ℕ) (expires : Option ℕ) (z : Z)
      → 0 < o.limit
      → length (scores z) ≡ o.limit
      → ((u : ℕ) → expires ≡ some u → All (λ s. s + o.window_ms < u) (scores z))
      → (card (pruned ops o t (record { set = z; expires_at = expires })) < o.limit)
        ↔ (oldest_score (head? (scores z)) + o.window_ms ≤ t)
  card-lt_iff o now t none z pos full outlives =
      rw (card-live o t (record { set = z; expires_at = none }) refl)
        (room_iff o.window_ms o.limit t (scores z) pos full (scores-IsAscending z))
  card-lt_iff o now t (some u) z pos full outlives = elim (Bool-cases (leb u t)) [
    | inl past ↦
        let gone = card-expired o t u z past in
        let oldest = oldest_lt u o.window_ms (scores z) (omega arith) (outlives u refl) in
        (λ h. omega (arith, leb→le u t past), λ h. omega arith)
    | inr live ↦
        rw (card-live o t (record { set = z; expires_at = some u }) (rw live))
          (room_iff o.window_ms o.limit t (scores z) pos full (scores-IsAscending z))
  ]

  All-live_set :
      (P : ℕ → Type 0) (t : ℕ) (expires : Option ℕ) (z : Z)
      → All P (scores z)
      → All P (scores (live_set ops t expires z))
  All-live_set P t none z h = h
  All-live_set P t (some u) z h = elim (Bool-cases (leb u t)) [
    | inl past ↦ rw (past, scores-empty) tt
    | inr live ↦ rw live h
  ]

  All-pruned :
      (P : ℕ → Type 0) (o : Options) (t : ℕ) (b : Bucket ops)
      → All P (scores b.set)
      → All P (scores (pruned ops o t b))
  All-pruned P o t b h =
      let live = All-live_set P t b.expires_at b.set h in
      elim (Bool-cases (leb o.window_ms t)) [
        | inl long ↦ rw (long, scores-remove_up_to) (All-keep_above P (t - o.window_ms) _ live)
        | inr short ↦ rw short live
      ]

  length-live_set-le :
      (t : ℕ) (expires : Option ℕ) (z : Z)
      → length (scores (live_set ops t expires z)) ≤ length (scores z)
  length-live_set-le t none z = omega arith
  length-live_set-le t (some u) z = elim (Bool-cases (leb u t)) [
    | inl past ↦ rw (past, scores-empty) (omega arith)
    | inr live ↦ rw live (omega arith)
  ]

  length-pruned-le :
      (o : Options) (t : ℕ) (b : Bucket ops)
      → length (scores (pruned ops o t b)) ≤ length (scores b.set)
  length-pruned-le o t b =
      let live = length-live_set-le t b.expires_at b.set in
      elim (Bool-cases (leb o.window_ms t)) [
        | inl long ↦
            rw (long, scores-remove_up_to)
              (omega (
                arith,
                live,
                length-keep_above-le (t - o.window_ms) (scores (live_set ops t b.expires_at b.set)),
              ))
        | inr short ↦ rw short live
      ]

  -- Where a call for an identifier is refused and no other call for it comes between, a later call is
  -- admitted exactly from `retryAfterMs` after the refusal on.
  pub retry_after-exact :
      (o : Options) (now t : ℕ) (m m' : String) (b : Bucket ops)
      → 0 < o.limit
      → IsSettled o now b
      → now ≤ t
      → (check ops o true now m b).1.allowed ≡ false
      → let (b', r) = check ops o true now m b in
        ((check ops o true t m' b').1.allowed ≡ true) ↔ (now + r.retry_after_ms ≤ t)
  retry_after-exact o now t m m' b pos settled le no_slot =
      let (same, wait, full) = refused-eq o now m b no_slot in
      let z = pruned ops o now b in
      let b' : Bucket ops = record b { set = z } in
      let exactly =
        card-lt_iff o now t b.expires_at z pos
          (omega (arith, full, card-eq-length z, length-pruned-le o now b, settled.at_most))
          (λ u e. All-pruned (λ s. s + o.window_ms < u) o now b (settled.outlives u e)) in
      let admits = allowed_iff o t m' b' in
      rw (same, wait)
        ((λ h. omega (arith, exactly.0 (admits.0 h))), λ h. admits.1 (exactly.1 (omega arith)))

  check-eq_admitted :
      (o : Options) (now : ℕ) (m : String) (b : Bucket ops)
      → (check ops o true now m b).1.allowed ≡ true
      → let z = pruned ops o now b in
        (check ops o true now m b).0
        ≡ record { set = add now m z; expires_at = some (now + (o.window_ms + 1000)) }
  unfolding check
  check-eq_admitted o now m b h = elim (Bool-cases (leb o.limit (card (pruned ops o now b)))) [
    | inl full ↦ absurd (let e : false ≡ true = rw full at h in cc)
    | inr room ↦ rw room
  ]

  -- Every call leaves the bucket settled.
  pub check-IsSettled :
      (o : Options) (now now' : ℕ) (m : String) (b : Bucket ops)
      → IsSettled o now b
      → now ≤ now'
      → has m (pruned ops o now' b) ≡ false
      → IsSettled o now' (check ops o true now' m b).0
  check-IsSettled o now now' m b settled le fresh =
      let z = pruned ops o now' b in
      let short = length-pruned-le o now' b in
      let past : All (λ u. u ≤ now') (scores z) =
        All-pruned (λ u. u ≤ now') o now' b
          (All-map _ _ (scores b.set) (λ u h. omega arith) settled.past) in
      elim (Bool-cases (check ops o true now' m b).1.allowed) [
        | inl slot ↦ rw (check-eq_admitted o now' m b slot) (record {
          past = scores-add-le now' now' m z (omega arith) past;
          outlives = λ t e.
              let at : now' + (o.window_ms + 1000) ≡ t = cc in
              All-map (λ u. u ≤ now') _ _ (λ u h. omega arith)
                (scores-add-le now' now' m z (omega arith) past);
          at_most =
              omega (
                arith,
                length-add now' m z fresh,
                (allowed_iff o now' m b).0 slot,
                card-eq-length z,
              );
        })
        | inr no_slot ↦ rw ((refused-eq o now' m b no_slot).0) (record {
          past = past;
          outlives = λ t e. All-pruned _ o now' b (settled.outlives t e);
          at_most = omega (arith, short, settled.at_most);
        })
      ]
