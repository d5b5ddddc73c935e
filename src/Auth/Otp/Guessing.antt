-- ===== src/Auth/Otp/Guessing.antt =====
-- How many guesses a one-time password allows, one after another.
use nexus_commerce.Base.{
  ℕ, ◌+◌, ◌*◌, ◌≡◌, ◌≤◌, ◌<◌, sym, ap, refl, ◌∙◌, Bool, true, false, Option, none, some, String,
  List, [], ◌∷◌, ltb, leb, if◌then◌else◌, Bool-cases, inl, inr, arith, ◌⊎◌, str_eq_self, All,
  lt→leb, ltb→le, ltb→lt,
}
use nexus_commerce.Redis.{RedisOps, live, live_later}
use nexus_commerce.Auth.Otp.{
  email_verification, OtpKey, otp_block, otp_code, otp_attempts, OtpValue, word, number, OtpError,
  invalid_otp, account_blocked, same_key, is_truthy, is_code, to_number, plus_one, exceeds,
  verify_otp, verify_with, fail_attempt, send_otp, send_checked, store_code, block_time,
  max_attempts, track_otp_requests, check_otp_restrictions, otp_spam_block, otp_cooldown,
  otp_request_count, otp_request_limit, otp_spam_block_duration, otp_cooldown_duration,
  otp_request_window, otp_ttl_seconds,
}

-- What a client can do: guess the code, or have another one sent (the code is the one generated).
pub data Request : Type 0 where
  guess resend : String → Request

-- The guess was compared with a live code and was wrong.
abbrev pub is_mismatch : OtpError → Bool
is_mismatch account_blocked = true
is_mismatch (invalid_otp left) = true
is_mismatch _ = false

-- A guess counts if it was wrong; one that is accepted ends the count.
abbrev pub count_wrong : Option OtpError → ℕ → ℕ
count_wrong none rest = 0
count_wrong (some e) rest = if is_mismatch e then rest + 1 else rest

module _ (redis : RedisOps OtpKey OtpValue same_key) (normalize : String → String)
    (email : String) where
  open redis use {Store, entry, get, set, del, get-eq-live, entry-set, entry-del}

  -- The guesses that are compared and wrong, up to the first that is accepted.
  unfoldable pub mismatches : List (ℕ × Request) → Store → ℕ
  mismatches [] s = 0
  mismatches ((now, resend code) ∷ rs) s =
      mismatches rs (send_otp redis normalize now email code s).0
  mismatches ((now, guess code) ∷ rs) s =
      let (s', thrown) = verify_otp redis now email code email_verification s in
      count_wrong thrown (mismatches rs s')

  abbrev pub window : ℕ
  window = block_time * 1000

  abbrev InWindow : ℕ → ℕ → Type 0
  InWindow from now = (from ≤ now) × (now < from + window)

  abbrev attempts : OtpKey
  attempts = otp_attempts email email_verification

  abbrev block : OtpKey
  block = otp_block email email_verification

  -- `n` wrong guesses are on record throughout the window, or guessing is blocked throughout it.
  abbrev OnRecord : ℕ → ℕ → Store → Type 0
  OnRecord from n s =
      ((n ≤ max_attempts)
        × ((t : ℕ) → InWindow from t → to_number (live t (entry attempts s)) ≡ some n))
      ⊎ ((n ≡ max_attempts + 1)
          × ((t : ℕ) → InWindow from t → is_truthy (live t (entry block s)) ≡ true))

  -- Requests touch neither record: not the keys of `trackOtpRequests`, and not the code's.
  track_otp_requests-keeps :
      (j : OtpKey)
      → same_key (otp_spam_block (normalize email) email_verification) j ≡ false
      → same_key (otp_cooldown (normalize email) email_verification) j ≡ false
      → same_key (otp_request_count (normalize email) email_verification) j ≡ false
      → (now : ℕ) (s : Store)
      → entry j (track_otp_requests redis normalize now email email_verification s).0 ≡ entry j s
  unfolding track_otp_requests
  track_otp_requests-keeps j spam cool count now s =
      let e = normalize email in
      let n = plus_one (to_number (get now (otp_request_count e email_verification) s)) in
      elim (Bool-cases (is_truthy (get now (otp_spam_block e email_verification) s))) [
        | inl yes' ↦ rw yes' refl
        | inr no' ↦ elim (Bool-cases (exceeds n otp_request_limit)) [
          | inl over ↦
              rw
                (
                  no',
                  over,
                  entry-set now (otp_spam_block e email_verification) (word "blocked")
                      otp_spam_block_duration s j,
                  spam,
                )
                refl
          | inr under ↦
              rw
                (
                  no',
                  under,
                  entry-set now (otp_cooldown e email_verification) (word "active")
                      otp_cooldown_duration
                      (set now (otp_request_count e email_verification) (number n)
                        otp_request_window s)
                      j,
                  cool,
                  entry-set now (otp_request_count e email_verification) (number n)
                      otp_request_window s j,
                  count,
                )
                refl
        ]
      ]

  store_code-keeps :
      (j : OtpKey)
      → same_key (otp_code email email_verification) j ≡ false
      → (now : ℕ) (code : String) (s : Store) (thrown : Option OtpError)
      → entry j (store_code redis now email code (s, thrown)).0 ≡ entry j s
  unfolding store_code
  store_code-keeps j coded now code s (some e) = refl
  store_code-keeps j coded now code s none =
      rw (entry-set now (otp_code email email_verification) (word code) otp_ttl_seconds s j, coded)
        refl

  send_checked-keeps :
      (j : OtpKey)
      → same_key (otp_spam_block (normalize email) email_verification) j ≡ false
      → same_key (otp_cooldown (normalize email) email_verification) j ≡ false
      → same_key (otp_request_count (normalize email) email_verification) j ≡ false
      → same_key (otp_code email email_verification) j ≡ false
      → (now : ℕ) (code : String) (refusal : Option OtpError) (s : Store)
      → entry j (send_checked redis normalize now email code refusal s).0 ≡ entry j s
  unfolding send_checked
  send_checked-keeps j spam cool count coded now code (some e) s = refl
  send_checked-keeps j spam cool count coded now code none s =
      let tracked = track_otp_requests redis normalize now email email_verification s in
      store_code-keeps j coded now code tracked.0 tracked.1
      ∙ track_otp_requests-keeps j spam cool count now s

  send_otp-keeps :
      (now : ℕ) (code : String) (s : Store)
      → let s' = (send_otp redis normalize now email code s).0 in
        (entry attempts s' ≡ entry attempts s) × (entry block s' ≡ entry block s)
  unfolding send_otp
  send_otp-keeps now code s =
      let refusal = check_otp_restrictions redis normalize now email email_verification s in
      (
        send_checked-keeps attempts refl refl refl refl now code refusal s,
        send_checked-keeps block refl refl refl refl now code refusal s,
      )

  -- What is set in the window for the length of a block is there throughout the window.
  live_held :
      (from now t : ℕ) (v : OtpValue)
      → InWindow from now
      → InWindow from t
      → live t (some (v, now + block_time * 1000)) ≡ some v
  live_held from now t v set_in in' =
      let over : leb (now + block_time * 1000) t ≡ false =
        lt→leb (now + block_time * 1000) t (omega arith) in
      rw over refl

  -- A guess that is compared and wrong puts one more on record, or blocks.
  fail_attempt-OnRecord :
      (from n now : ℕ) (s : Store)
      → InWindow from now
      → n ≤ max_attempts
      → ((t : ℕ) → InWindow from t → to_number (live t (entry attempts s)) ≡ some n)
      → OnRecord from (n + 1) (fail_attempt redis now email email_verification s).0
  unfolding fail_attempt
  fail_attempt-OnRecord from n now s within few recorded =
      let count : to_number (get now attempts s) ≡ some n =
        ap to_number (get-eq-live now attempts s) ∙ recorded now within in
      elim (Bool-cases (ltb max_attempts (n + 1))) [
        | inl last ↦
            let blocked_store = set now block (word "blocked") block_time s in
            let code_deleted = del (otp_code email email_verification) blocked_store in
            let kept : entry block (del attempts code_deleted)
                ≡ some (word "blocked", now + block_time * 1000) =
              entry-del attempts code_deleted block
              ∙ entry-del (otp_code email email_verification) blocked_store block
              ∙ entry-set now block (word "blocked") block_time s block
              ∙ (let self = str_eq_self email in rw self refl) in
            let at_limit = ltb→lt max_attempts (n + 1) last in
            rw (count, last)
              (inr (
                omega arith,
                λ t inside.
                    ap (λ e. is_truthy (live t e)) kept
                    ∙ ap is_truthy (live_held from now t (word "blocked") within inside),
              ))
        | inr more ↦
            let kept : entry attempts (set now attempts (number (some (n + 1))) block_time s)
                ≡ some (number (some (n + 1)), now + block_time * 1000) =
              entry-set now attempts (number (some (n + 1))) block_time s attempts
              ∙ (let self = str_eq_self email in rw self refl) in
            let below = ltb→le max_attempts (n + 1) more in
            rw (count, more)
              (inl (
                omega arith,
                λ t inside.
                    ap (λ e. to_number (live t e)) kept
                    ∙ ap to_number (live_held from now t (number (some (n + 1))) within inside),
              ))
      ]

  fail_attempt-count_wrong :
      (now : ℕ) (s : Store) (rest : ℕ)
      → count_wrong (fail_attempt redis now email email_verification s).1 rest ≡ rest + 1
  unfolding fail_attempt
  fail_attempt-count_wrong now s rest = ground arith

  -- One guess, given the bound for what follows it.
  guess-le :
      (from n now : ℕ) (code : String) (rs : List (ℕ × Request)) (s : Store)
      (stored : Option OtpValue)
      → InWindow from now
      → n ≤ max_attempts
      → ((t : ℕ) → InWindow from t → to_number (live t (entry attempts s)) ≡ some n)
      → ((m : ℕ) (s' : Store) → OnRecord from m s' → m + mismatches rs s' ≤ max_attempts + 1)
      → let (s', thrown) = verify_with redis now email code email_verification stored s in
        n + count_wrong thrown (mismatches rs s') ≤ max_attempts + 1
  unfolding verify_with
  guess-le from n now code rs s none within few recorded rest = rest n s (inl (few, recorded))
  guess-le from n now code rs s (some stored) within few recorded rest =
      elim (Bool-cases (is_truthy (some stored))) [
        | inr empty ↦ rw empty (rest n s (inl (few, recorded)))
        | inl full ↦ elim (Bool-cases (is_code code stored)) [
          | inl hit ↦ rw (full, hit) (omega arith)
          | inr miss ↦
              let failed = fail_attempt redis now email email_verification s in
              let bound =
                rest (n + 1) failed.0 (fail_attempt-OnRecord from n now s within few recorded) in
              rw (full, miss, fail_attempt-count_wrong now s (mismatches rs failed.0))
                (omega (arith, bound))
        ]
      ]

  guess_free :
      (from n now : ℕ) (code : String) (rs : List (ℕ × Request)) (s : Store)
      → InWindow from now
      → is_truthy (get now block s) ≡ false
      → OnRecord from n s
      → ((m : ℕ) (s' : Store) → OnRecord from m s' → m + mismatches rs s' ≤ max_attempts + 1)
      → let stored = get now (otp_code email email_verification) s in
        let (s', thrown) = verify_with redis now email code email_verification stored s in
        n + count_wrong thrown (mismatches rs s') ≤ max_attempts + 1
  guess_free from n now code rs s within free (inl (few, recorded)) rest =
      guess-le from n now code rs s (get now (otp_code email email_verification) s) within few
        recorded rest
  guess_free from n now code rs s within free (inr (many, held)) rest =
      let closed : is_truthy (get now block s) ≡ true =
        ap is_truthy (get-eq-live now block s) ∙ held now within in
      absurd
        (let e : true ≡ false = sym closed ∙ free in let e' : Unit {0} ≡ ⊥ = cc in rw (← e') tt)

  OnRecord-le : (from n : ℕ) (s : Store) → OnRecord from n s → n ≤ max_attempts + 1
  OnRecord-le from n s (inl (few, recorded)) = omega (arith, few)
  OnRecord-le from n s (inr (many, held)) = omega (arith, many)

  mismatches-le :
      (from : ℕ) (rs : List (ℕ × Request)) (n : ℕ) (s : Store)
      → OnRecord from n s
      → All (λ r. InWindow from r.0) rs
      → n + mismatches rs s ≤ max_attempts + 1
  unfolding mismatches verify_otp
  mismatches-le from [] n s record' within =
      let bound = OnRecord-le from n s record' in omega (arith, bound)
  mismatches-le from ((now, resend code) ∷ rs) n s record' within =
      let kept = send_otp-keeps now code s in
      mismatches-le from rs n (send_otp redis normalize now email code s).0
        (rw (kept.0, kept.1) record') within.1
  mismatches-le from ((now, guess code) ∷ rs) n s record' within =
      let rest : (m : ℕ) (s' : Store)
          → OnRecord from m s'
          → m + mismatches rs s' ≤ max_attempts + 1 =
        λ m s' kept. mismatches-le from rs m s' kept within.1 in
      elim (Bool-cases (is_truthy (get now block s))) [
        | inl closed ↦ rw closed (rest n s record')
        | inr free ↦ rw free (guess_free from n now code rs s within.0 free record' rest)
      ]

  -- If guesses and requests of codes come one after another, each after the one before has ended, then
  -- within any 30 minutes at most four guesses are compared and found wrong before one is accepted,
  -- however many codes are sent in between, if no earlier wrong guess is on record at the start: the
  -- count outlives the code, each wrong guess renews it, and the fourth blocks guessing for as long.
  -- Guesses that overlap may all read the same count, and the bound is not theirs.
  pub mismatches-le_four :
      (from : ℕ) (rs : List (ℕ × Request)) (s : Store)
      → get from attempts s ≡ none
      → All (λ r. (from ≤ r.0) × (r.0 < from + block_time * 1000)) rs
      → mismatches rs s ≤ 4
  mismatches-le_four from rs s fresh within =
      let none_before : live from (entry attempts s) ≡ none =
        sym (get-eq-live from attempts s) ∙ fresh in
      let bound =
        mismatches-le from rs 0 s
          (inl (
            omega arith,
            λ t inside. ap to_number (live_later from t (entry attempts s) inside.0 none_before),
          ))
          within in
      omega (arith, bound)
