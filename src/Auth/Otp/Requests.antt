-- ===== src/Auth/Otp/Requests.antt =====
-- How many one-time passwords can be requested, one after another.
use nexus_commerce.Base.{
  ℕ, ◌+◌, ◌*◌, ◌≡◌, ◌≤◌, ◌<◌, sym, ap, refl, ◌∙◌, false, Option, none, some, String, List, [], ◌∷◌,
  ltb, leb, Bool-cases, inl, inr, arith, str_eq_self, All, lt→leb, ltb→le,
}
use nexus_commerce.Redis.{RedisOps, live, live_later}
use nexus_commerce.Auth.Otp.{
  email_verification, OtpKey, OtpValue, word, number, OtpError, same_key, is_truthy, to_number,
  send_otp, send_checked, store_code, track_otp_requests, check_otp_restrictions, otp_spam_block,
  otp_cooldown, otp_request_count, otp_code, otp_request_limit, otp_spam_block_duration,
  otp_cooldown_duration, otp_request_window, otp_ttl_seconds,
}

-- 1 for a request that went through.
abbrev pub passed : Option OtpError → ℕ
passed none = 1
passed (some e) = 0

module _ (redis : RedisOps OtpKey OtpValue same_key) (normalize : String → String)
    (email : String) where
  open redis use {Store, entry, get, set, del, get-eq-live, entry-set, entry-del}

  -- The requests that go through, each at its time and with the code generated for it.
  unfoldable pub requests : List (ℕ × String) → Store → ℕ
  requests [] s = 0
  requests ((now, code) ∷ rs) s =
      let (s', thrown) = send_otp redis normalize now email code s in passed thrown + requests rs s'

  abbrev InWindow : ℕ → ℕ → Type 0
  InWindow from now = (from ≤ now) × (now < from + otp_request_window * 1000)

  abbrev count : OtpKey
  count = otp_request_count (normalize email) email_verification

  abbrev OnCount : ℕ → ℕ → Store → Type 0
  OnCount from n s =
      (n ≤ otp_request_limit)
      × ((t : ℕ) → InWindow from t → to_number (live t (entry count s)) ≡ some n)

  OnCount-same :
      (from n : ℕ) (s s' : Store)
      → entry count s' ≡ entry count s
      → OnCount from n s
      → OnCount from (n + 0) s'
  OnCount-same from n s s' same (few, counted) =
      let unit : n + 0 ≡ n = omega arith in
      (
        omega (arith, few),
        λ t inside. ap (λ e. to_number (live t e)) same ∙ counted t inside ∙ ap some (sym unit),
      )

  track_otp_requests-OnCount :
      (from n now : ℕ) (s : Store)
      → InWindow from now
      → OnCount from n s
      → let (s', thrown) = track_otp_requests redis normalize now email email_verification s in
        OnCount from (n + passed thrown) s'
  unfolding track_otp_requests
  track_otp_requests-OnCount from n now s within (few, counted) =
      let e = normalize email in
      let here : to_number (get now count s) ≡ some n =
        ap to_number (get-eq-live now count s) ∙ counted now within in
      elim (Bool-cases (is_truthy (get now (otp_spam_block e email_verification) s))) [
        | inl closed ↦ rw closed (OnCount-same from n s s refl (few, counted))
        | inr opened ↦ elim (Bool-cases (ltb otp_request_limit (n + 1))) [
          | inl over ↦
              let kept =
                entry-set now (otp_spam_block e email_verification) (word "blocked")
                  otp_spam_block_duration s count in
              rw (opened, here, over)
                (OnCount-same from n s
                  (set now (otp_spam_block e email_verification) (word "blocked")
                    otp_spam_block_duration s)
                  kept (few, counted))
          | inr under ↦
              let value = number (some (n + 1)) in
              let counted_up = set now count value otp_request_window s in
              let kept : entry count (
                    set now (otp_cooldown e email_verification) (word "active")
                      otp_cooldown_duration counted_up)
                  ≡ some (value, now + otp_request_window * 1000) =
                entry-set now (otp_cooldown e email_verification) (word "active")
                  otp_cooldown_duration counted_up count
                ∙ entry-set now count value otp_request_window s count
                ∙ (let self = str_eq_self e in rw self refl) in
              rw (opened, here, under)
                (
                  ltb→le otp_request_limit (n + 1) under,
                  λ t inside.
                      let over : leb (now + otp_request_window * 1000) t ≡ false =
                        lt→leb (now + otp_request_window * 1000) t (omega arith) in
                      ap (λ e'. to_number (live t e')) kept ∙ (rw over refl),
                )
        ]
      ]

  store_code-OnCount :
      (from n now : ℕ) (code : String) (s : Store) (thrown : Option OtpError)
      → OnCount from (n + passed thrown) s
      → let (s', thrown') = store_code redis now email code (s, thrown) in
        OnCount from (n + passed thrown') s'
  unfolding store_code
  store_code-OnCount from n now code s (some e) kept = kept
  store_code-OnCount from n now code s none kept =
      let same =
        entry-set now (otp_code email email_verification) (word code) otp_ttl_seconds s count in
      (kept.0, λ t inside. ap (λ e. to_number (live t e)) same ∙ kept.1 t inside)

  send_checked-OnCount :
      (from n now : ℕ) (code : String) (refusal : Option OtpError) (s : Store)
      → InWindow from now
      → OnCount from n s
      → let (s', thrown) = send_checked redis normalize now email code refusal s in
        OnCount from (n + passed thrown) s'
  unfolding send_checked
  send_checked-OnCount from n now code (some e) s within counted =
      OnCount-same from n s s refl counted
  send_checked-OnCount from n now code none s within counted =
      let tracked = track_otp_requests redis normalize now email email_verification s in
      store_code-OnCount from n now code tracked.0 tracked.1
        (track_otp_requests-OnCount from n now s within counted)

  requests-le :
      (from : ℕ) (rs : List (ℕ × String)) (n : ℕ) (s : Store)
      → OnCount from n s
      → All (λ r. InWindow from r.0) rs
      → n + requests rs s ≤ otp_request_limit
  unfolding requests send_otp
  requests-le from [] n s (few, counted) within = omega (arith, few)
  requests-le from ((now, code) ∷ rs) n s counted within =
      let refusal = check_otp_restrictions redis normalize now email email_verification s in
      let (s', thrown) = send_checked redis normalize now email code refusal s in
      let bound =
        requests-le from rs (n + passed thrown) s'
          (send_checked-OnCount from n now code refusal s within.0 counted) within.1 in
      omega (arith, bound)

  -- If requests for a code come one after another, each after the one before has ended, then within any
  -- 30 minutes at most three go through, whatever the codes and the pauses between them, if none is on
  -- record at the start. Requests that overlap may all read the same count, and the bound is not theirs.
  pub requests-le_three :
      (from : ℕ) (rs : List (ℕ × String)) (s : Store)
      → get from count s ≡ none
      → All (λ r. (from ≤ r.0) × (r.0 < from + otp_request_window * 1000)) rs
      → requests rs s ≤ 3
  requests-le_three from rs s fresh within =
      let none_before : live from (entry count s) ≡ none = sym (get-eq-live from count s) ∙ fresh in
      let bound =
        requests-le from rs 0 s
          (
            omega arith,
            λ t inside. ap to_number (live_later from t (entry count s) inside.0 none_before),
          )
          within in
      omega (arith, bound)
