-- ===== src/Auth/Otp/Tests.antt =====
-- One-time passwords at a concrete address and store.
use nexus_commerce.Base.{ℕ, ◌≡◌, ◌≤◌, refl, none, some, String, List, [], ◌∷◌, arith}
use nexus_commerce.Redis.{RedisOps, function_redis}
use nexus_commerce.Auth.Otp.{
  email_verification, OtpKey, otp_code, OtpValue, word, same_key, verify_otp, invalid_or_expired,
}
use nexus_commerce.Auth.Otp.Verify.{verify_otp-accepts, verify_otp-single_use}
use nexus_commerce.Auth.Otp.Guessing.{Request, guess, resend, mismatches, mismatches-le_four}
use nexus_commerce.Auth.Otp.Requests.{requests, requests-le_three}

abbrev store : RedisOps OtpKey OtpValue same_key
store = function_redis OtpKey OtpValue same_key

abbrev address : String
address = "ada@example.com"

abbrev empty : store.Store
empty = λ k. none

abbrev sent : store.Store
sent = store.set 0 (otp_code address email_verification) (word "123456") 300 empty

abbrev guesses : List (ℕ × Request)
guesses =
    (10, guess "000000")
    ∷ (20, guess "000001")
    ∷ (70000, resend "654321")
    ∷ (70010, guess "000002")
    ∷ (70020, guess "000003")
    ∷ (70030, guess "654321")
    ∷ []

verify_otp-single_use_example :
    let s' = (verify_otp store 10 address "123456" email_verification sent).0 in
    verify_otp store 20 address "123456" email_verification s' ≡ (s', some invalid_or_expired)
verify_otp-single_use_example =
    verify_otp-single_use store 10 20 address "123456" "123456" email_verification sent
      (omega arith)
      ((verify_otp-accepts store 10 address "123456" email_verification sent).1
        (refl, (refl, refl)))

mismatches-le_four_example : mismatches store (λ e. e) address guesses sent ≤ 4
mismatches-le_four_example =
    mismatches-le_four store (λ e. e) address 10 guesses sent refl
      (
        (omega arith, omega arith),
        (
          (omega arith, omega arith),
          (
            (omega arith, omega arith),
            (
              (omega arith, omega arith),
              ((omega arith, omega arith), ((omega arith, omega arith), tt)),
            ),
          ),
        ),
      )

requests-le_three_example :
    requests store (λ e. e) address ((10, "1") ∷ (70000, "2") ∷ (80000, "3") ∷ []) empty ≤ 3
requests-le_three_example =
    requests-le_three store (λ e. e) address 10 ((10, "1") ∷ (70000, "2") ∷ (80000, "3") ∷ []) empty
      refl
      ((omega arith, omega arith), ((omega arith, omega arith), ((omega arith, omega arith), tt)))
