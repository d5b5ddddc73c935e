-- ===== src/Auth/Otp/Verify.antt =====
-- Guessing a one-time password.
use nexus_commerce.Base.{
  ℕ, ◌≡◌, ◌≢◌, ◌≤◌, sym, ap, refl, ◌∙◌, false, Option, none, some, String, leb, str_eq, Bool-cases,
  inl, inr, arith, ◌↔◌, str_eq→eq, str_eq_self, lt→leb, leb→lt,
}
use nexus_commerce.Redis.{RedisOps, live}
use nexus_commerce.Auth.Otp.{
  OtpPurpose, OtpKey, otp_block, otp_code, otp_attempts, OtpValue, word, number, invalid_or_expired,
  same_key, is_truthy, is_code, verify_otp, verify_with, fail_attempt,
}

module _ (redis : RedisOps OtpKey OtpValue same_key) where
  open redis use {Store, entry, get, set, del, get-eq-live, entry-set, entry-del}

  fail_attempt-throws :
      (now : ℕ) (email : String) (purpose : OtpPurpose) (s : Store)
      → (fail_attempt redis now email purpose s).1 ≢ none
  unfolding fail_attempt
  fail_attempt-throws now email purpose s = ground arith

  verify_with-accepts :
      (now : ℕ) (email otp : String) (purpose : OtpPurpose) (stored : Option OtpValue) (s : Store)
      → ((verify_with redis now email otp purpose stored s).1 ≡ none)
        ↔ ((stored ≡ some (word otp)) × (str_eq otp "" ≡ false))
  unfolding verify_with
  verify_with-accepts now email otp purpose none s = ground arith
  verify_with-accepts now email otp purpose (some (number n)) s =
      ground (arith, fail_attempt-throws now email purpose s)
  verify_with-accepts now email otp purpose (some (word code)) s =
      elim (Bool-cases (str_eq code "")) [
        | inl empty ↦ rw empty (ground arith)
        | inr full ↦ elim (Bool-cases (str_eq otp code)) [
          | inl hit ↦
              let same : otp ≡ code = str_eq→eq otp code hit in
              rw (full, hit) (λ e. (ap (λ c. some (word c)) (sym same), rw same full), λ h. refl)
          | inr miss ↦
              rw (full, miss)
                (ground (arith, fail_attempt-throws now email purpose s, str_eq_self otp))
        ]
      ]

  -- A code is accepted exactly when guessing is not blocked and the code is the one that is stored
  -- and live, and not empty.
  pub verify_otp-accepts :
      (now : ℕ) (email otp : String) (purpose : OtpPurpose) (s : Store)
      → ((verify_otp redis now email otp purpose s).1 ≡ none) ↔ (
          (is_truthy (get now (otp_block email purpose) s) ≡ false)
          × ((get now (otp_code email purpose) s ≡ some (word otp)) × (str_eq otp "" ≡ false)))
  unfolding verify_otp
  verify_otp-accepts now email otp purpose s =
      elim (Bool-cases (is_truthy (get now (otp_block email purpose) s))) [
        | inl block ↦ rw block (ground arith)
        | inr free ↦ rw free (
            ground (
              arith,
              verify_with-accepts now email otp purpose (get now (otp_code email purpose) s) s,
            ))
      ]

  accepted-store :
      (now : ℕ) (email otp : String) (purpose : OtpPurpose) (stored : Option OtpValue) (s : Store)
      → (verify_with redis now email otp purpose stored s).1 ≡ none
      → (verify_with redis now email otp purpose stored s).0
        ≡ del (otp_attempts email purpose) (del (otp_code email purpose) s)
  unfolding verify_with
  accepted-store now email otp purpose none s h = ground arith
  accepted-store now email otp purpose (some stored) s h =
      elim (Bool-cases (is_truthy (some stored))) [
        | inr empty ↦ ground arith
        | inl full ↦ elim (Bool-cases (is_code otp stored)) [
          | inl hit ↦ rw (full, hit) refl
          | inr miss ↦ absurd (fail_attempt-throws now email purpose s (rw (full, miss) at h))
        ]
      ]

  -- Without a block now, there is none later.
  free_later :
      (now later : ℕ) (e : Option (OtpValue × ℕ))
      → now ≤ later
      → is_truthy (live now e) ≡ false
      → is_truthy (live later e) ≡ false
  free_later now later none le h = refl
  free_later now later (some (v, t)) le h = elim (Bool-cases (leb t later)) [
    | inl over ↦ rw over refl
    | inr alive ↦
        let alive_now : leb t now ≡ false =
          lt→leb t now (let lt = leb→lt t later alive in omega arith) in
        rw alive (rw alive_now at h)
  ]

  -- A code is good for one guess: after it was accepted, every later guess of the same address, also
  -- of the same code, is refused as invalid or expired and changes nothing.
  pub verify_otp-single_use :
      (now later : ℕ) (email otp other : String) (purpose : OtpPurpose) (s : Store)
      → now ≤ later
      → (verify_otp redis now email otp purpose s).1 ≡ none
      → let s' = (verify_otp redis now email otp purpose s).0 in
        verify_otp redis later email other purpose s' ≡ (s', some invalid_or_expired)
  unfolding verify_otp verify_with
  verify_otp-single_use now later email otp other purpose s le accepted =
      let free = ((verify_otp-accepts now email otp purpose s).0 accepted).0 in
      let block = otp_block email purpose in
      let code = otp_code email purpose in
      let s₁ = del code s in
      let s₂ = del (otp_attempts email purpose) s₁ in
      let block_kept : entry block s₂ ≡ entry block s =
        entry-del (otp_attempts email purpose) s₁ block ∙ entry-del code s block in
      let code_gone : entry code s₂ ≡ none =
        entry-del (otp_attempts email purpose) s₁ code
        ∙ entry-del code s code
        ∙ (let self = str_eq_self email in rw self refl) in
      let still_free : is_truthy (get later block s₂) ≡ false =
        ap is_truthy (get-eq-live later block s₂)
        ∙ ap (λ e. is_truthy (live later e)) block_kept
        ∙ free_later now later (entry block s) le
            (ap is_truthy (sym (get-eq-live now block s)) ∙ free) in
      let no_code : get later code s₂ ≡ none =
        get-eq-live later code s₂ ∙ ap (live later) code_gone in
      let ended = accepted-store now email otp purpose (get now code s) s (rw free at accepted) in
      rw (free, ended, still_free, no_code) refl
