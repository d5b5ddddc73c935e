-- ===== src/Notification/Retry.antt =====
-- services/notification-service/src/resilience/backoff.ts. `Math.random() * d` is the argument
-- `jitter n d` at the attempt `n`; what the operation gives at each attempt is
-- the argument `operation`.
pub mod Laws
mod Tests
use nexus_commerce.Base.{
  ℕ, zero, suc, ◌+◌, ◌-◌, ◌*◌, ◌^◌, min, Bool, not, ◌||◌, Result, ok, err, List, [], ◌∷◌, ◌==◌,
  if◌then◌else◌,
}

pub record BackoffOptions : Type 0 where
  pub base_delay_ms : ℕ
  pub max_delay_ms : ℕ
  pub max_attempts : ℕ

pub calculate_backoff : (ℕ → ℕ → ℕ) → ℕ → BackoffOptions → ℕ
calculate_backoff jitter attempt o =
    jitter attempt (min (o.base_delay_ms * 2 ^ attempt) o.max_delay_ms)

-- What `retryWithBackoff` throws: an error of the operation, or its last line's.
pub data RetryError (E : Type 0) : Type 0 where
  operation_error : E → RetryError E
  no_attempts : RetryError E

-- A run: how it ended, how often the operation was called, and the pauses between the calls.
pub record Run (E A : Type 0) : Type 0 where
  pub result : Result (RetryError E) A
  pub calls : ℕ
  pub pauses : List ℕ

abbrev pub after_pause : {E A : Type 0} → ℕ → Run E A → Run E A
after_pause d r = record r { calls = r.calls + 1; pauses = d ∷ r.pauses }

module _ {E A : Type 0} (jitter : ℕ → ℕ → ℕ) (operation : ℕ → Result E A) (o : BackoffOptions)
    (should_retry : E → Bool) where
  -- The loop from `attempt` on, with `left` attempts to go.
  pub retry_from : ℕ → ℕ → Run E A
  unfolding calculate_backoff
  retry_from zero attempt = record { result = err no_attempts; calls = 0; pauses = [] }
  retry_from (suc left) attempt =
      let rest = retry_from left (attempt + 1) in
      elim (operation attempt) [
        | ok a ↦ record { result = ok a; calls = 1; pauses = [] }
        | err e ↦
            if not (should_retry e) || attempt == o.max_attempts - 1
            then record { result = err (operation_error e); calls = 1; pauses = [] }
            else after_pause (calculate_backoff jitter attempt o) rest
      ]

  pub retry_with_backoff : Run E A
  unfolding retry_from
  retry_with_backoff = retry_from o.max_attempts 0
