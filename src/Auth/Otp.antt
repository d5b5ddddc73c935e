-- ===== src/Auth/Otp.antt =====
-- services/auth-service/src/utils/otp: the restrictions on requesting and on guessing a one-time
-- password, and what `auth.service.ts` does with Redis when it sends one. `normalize` stands for
-- `email.toLowerCase().trim()`. The functions are several awaited calls of Redis, a GET of a count and
-- then a SET of it among them; each is one step here, so that a sequence of them models calls that do
-- not overlap.
use nexus_commerce.Base.{
  ℕ, ◌+◌, ◌*◌, ◌-◌, ◌≡◌, Bool, true, false, not, ◌&&◌, Option, none, some, String, ltb, str_eq,
  if◌then◌else◌,
}
use mathlib.Core.Option
pub mod Verify
mod Tests
pub mod Requests
pub mod Guessing
use nexus_commerce.Redis.{RedisOps}

pub data OtpPurpose : Type 0 where
  email_verification : OtpPurpose

-- The keys, one constructor for each template.
pub data OtpKey : Type 0 where
  otp_block otp_spam_block otp_cooldown otp_request_count otp_attempts otp_code :
      String → OtpPurpose → OtpKey

abbrev pub same_key : OtpKey → OtpKey → Bool
same_key (otp_block e p) (otp_block e' p') = str_eq e e'
same_key (otp_spam_block e p) (otp_spam_block e' p') = str_eq e e'
same_key (otp_cooldown e p) (otp_cooldown e' p') = str_eq e e'
same_key (otp_request_count e p) (otp_request_count e' p') = str_eq e e'
same_key (otp_attempts e p) (otp_attempts e' p') = str_eq e e'
same_key (otp_code e p) (otp_code e' p') = str_eq e e'
same_key _ _ = false

-- What the code stores: a text, or a number printed by `toString`, where `none` is NaN.
pub data OtpValue : Type 0 where
  word : String → OtpValue
  number : Option ℕ → OtpValue

-- `if (value)` on what GET returned
abbrev pub is_truthy : Option OtpValue → Bool
is_truthy none = false
is_truthy (some (word s)) = not (str_eq s "")
is_truthy (some (number n)) = true

-- `Number(value ?? 0)` and `parseInt(value || "0")`; none of the texts stored is a number.
abbrev pub to_number : Option OtpValue → Option ℕ
to_number none = some 0
to_number (some (word s)) = none
to_number (some (number n)) = n

abbrev pub plus_one : Option ℕ → Option ℕ
plus_one n = Option.map (λ k. k + 1) n

-- `n > bound`, false of NaN
abbrev pub exceeds : Option ℕ → ℕ → Bool
exceeds none bound = false
exceeds (some n) bound = ltb bound n

abbrev pub otp_request_limit : ℕ
otp_request_limit = 3

abbrev pub otp_spam_block_duration : ℕ
otp_spam_block_duration = 60 * 60

abbrev pub otp_request_window : ℕ
otp_request_window = 30 * 60

abbrev pub otp_cooldown_duration : ℕ
otp_cooldown_duration = 60

abbrev pub max_attempts : ℕ
max_attempts = 3

abbrev pub block_time : ℕ
block_time = 30 * 60

abbrev pub otp_ttl_seconds : ℕ
otp_ttl_seconds = 5 * 60

pub data OtpError : Type 0 where
  blocked spam_blocked cooldown invalid_or_expired account_blocked : OtpError
  -- with the attempts left
  invalid_otp : Option ℕ → OtpError

-- `otp !== storedOtp` of two texts; a printed number is no code.
abbrev pub is_code : String → OtpValue → Bool
is_code otp (word s) = str_eq otp s
is_code otp (number n) = false

module _ (redis : RedisOps OtpKey OtpValue same_key) where
  open redis use {Store, get, set, del}

  -- `checkOtpRestrictions`: what it throws, if it throws.
  pub check_otp_restrictions : (String → String) → ℕ → String → OtpPurpose → Store → Option OtpError
  check_otp_restrictions normalize now email purpose s =
      let normalized = normalize email in
      if is_truthy (get now (otp_block normalized purpose) s)
      then some blocked
      else if is_truthy (get now (otp_spam_block normalized purpose) s)
      then some spam_blocked
      else if is_truthy (get now (otp_cooldown normalized purpose) s)
      then some cooldown
      else none

  -- `trackOtpRequests` when no other call comes between its calls of Redis
  pub track_otp_requests :
      (String → String) → ℕ → String → OtpPurpose → Store → Store × Option OtpError
  track_otp_requests normalize now email purpose s =
      let normalized = normalize email in
      if is_truthy (get now (otp_spam_block normalized purpose) s)
      then (s, some spam_blocked)
      else let otp_requests =
          plus_one (to_number (get now (otp_request_count normalized purpose) s)) in
        if exceeds otp_requests otp_request_limit
        then (
          set now (otp_spam_block normalized purpose) (word "blocked") otp_spam_block_duration s,
          some spam_blocked,
        )
        else (
          set now (otp_cooldown normalized purpose) (word "active") otp_cooldown_duration (
              set now (otp_request_count normalized purpose) (number otp_requests)
                otp_request_window s),
          none,
        )

  -- `verifyOtp` once the code is known to be wrong
  pub fail_attempt : ℕ → String → OtpPurpose → Store → Store × Option OtpError
  fail_attempt now email purpose s =
      let failed = plus_one (to_number (get now (otp_attempts email purpose) s)) in
      if exceeds failed max_attempts
      then (
        del (otp_attempts email purpose) (
            del (otp_code email purpose)
              (set now (otp_block email purpose) (word "blocked") block_time s)),
        some account_blocked,
      )
      else (
        set now (otp_attempts email purpose) (number failed) block_time s,
        some (invalid_otp (Option.map (λ n. max_attempts - n) failed)),
      )

  -- `verifyOtp` with the code that it found stored
  pub verify_with :
      ℕ → String → String → OtpPurpose → Option OtpValue → Store → Store × Option OtpError
  verify_with now email otp purpose none s = (s, some invalid_or_expired)
  verify_with now email otp purpose (some stored) s =
      if is_truthy (some stored)
      then (if is_code otp stored
          then (del (otp_attempts email purpose) (del (otp_code email purpose) s), none)
          else fail_attempt now email purpose s)
      else (s, some invalid_or_expired)

  -- `verifyOtp` when no other call comes between its calls of Redis
  pub verify_otp : ℕ → String → String → OtpPurpose → Store → Store × Option OtpError
  verify_otp now email otp purpose s =
      if is_truthy (get now (otp_block email purpose) s)
      then (s, some blocked)
      else verify_with now email otp purpose (get now (otp_code email purpose) s) s

  -- `redis.setex` of the code, unless what came before threw.
  pub store_code : ℕ → String → String → Store × Option OtpError → Store × Option OtpError
  store_code now email otp (s, some e) = (s, some e)
  store_code now email otp (s, none) =
      (set now (otp_code email email_verification) (word otp) otp_ttl_seconds s, none)

  pub send_checked :
      (String → String) → ℕ → String → String → Option OtpError → Store → Store × Option OtpError
  send_checked normalize now email otp (some e) s = (s, some e)
  send_checked normalize now email otp none s =
      store_code now email otp (track_otp_requests normalize now email email_verification s)

  -- The part of `startRegistration` and `resendRegistrationOtp` that restricts and stores a new OTP.
  pub send_otp : (String → String) → ℕ → String → String → Store → Store × Option OtpError
  send_otp normalize now email otp s =
      send_checked normalize now email otp
        (check_otp_restrictions normalize now email email_verification s) s
