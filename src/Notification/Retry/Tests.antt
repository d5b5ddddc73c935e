-- ===== src/Notification/Retry/Tests.antt =====
-- Retries of a concrete operation.
use nexus_commerce.Base.{ℕ, zero, suc, ◌≡◌, refl, Bool, true, Result, ok, err, [], ◌∷◌, arith}
use nexus_commerce.Notification.Retry.{BackoffOptions, retry_with_backoff}
use nexus_commerce.Notification.Retry.Laws.{EndsAt, retry_with_backoff-EndsAt}

abbrev three : BackoffOptions
three = record { base_delay_ms = 1000; max_delay_ms = 1500; max_attempts = 3 }

-- Twice an error to retry, then a value.
abbrev flaky : ℕ → Result Bool ℕ
flaky zero = err true
flaky (suc zero) = err true
flaky (suc (suc n)) = ok 9

abbrev retry_all : Bool → Bool
retry_all e = e

abbrev whole : ℕ → ℕ → ℕ
whole n d = d

third_succeeds :
    retry_with_backoff whole flaky three retry_all
    ≡ record { result = ok 9; calls = 3; pauses = 1000 ∷ 1500 ∷ [] }
unfolding retry_with_backoff
third_succeeds = refl

retry_with_backoff-EndsAt_example :
    (last : ℕ) × EndsAt whole flaky three retry_all 0 last
      (retry_with_backoff whole flaky three retry_all)
retry_with_backoff-EndsAt_example =
    retry_with_backoff-EndsAt whole flaky three retry_all (omega arith)
