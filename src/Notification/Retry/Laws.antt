-- ===== src/Notification/Retry/Laws.antt =====
-- `retryWithBackoff` ends, and how.
use nexus_commerce.Base.{
  ℕ, zero, suc, ◌+◌, ◌-◌, ◌*◌, ◌^◌, min, ◌≤◌, ◌<◌, ◌≡◌, ◌⊎◌, inl, inr, refl, Bool, true, false,
  Result, ok, err, List, [], ◌∷◌, All, arith, Bool-cases, range_step,
}
use nexus_commerce.Notification.Retry.{
  BackoffOptions, calculate_backoff, RetryError, operation_error, Run, retry_from,
  retry_with_backoff,
}

abbrev pub lift : {E A : Type 0} → Result E A → Result (RetryError E) A
lift (ok a) = ok a
lift (err e) = err (operation_error e)

-- The outcome of an attempt is a failure that is to be retried.
abbrev pub retryable : {E A : Type 0} → (E → Bool) → Result E A → Bool
retryable should_retry (ok a) = false
retryable should_retry (err e) = should_retry e

module _ {E A : Type 0} (jitter : ℕ → ℕ → ℕ) (operation : ℕ → Result E A) (o : BackoffOptions)
    (should_retry : E → Bool) where
  -- The pauses after the attempts from `first` on, `n` of them.
  abbrev pub pauses_from : ℕ → ℕ → List ℕ
  pauses_from first zero = []
  pauses_from first (suc n) = calculate_backoff jitter first o ∷ pauses_from (first + 1) n

  -- The loop that begins at `first` ends with the attempt `last`: those before it failed and were to
  -- be retried, and it succeeded, or failed beyond retry, or was the last that is allowed.
  abbrev pub EndsAt : ℕ → ℕ → Run E A → Type 0
  EndsAt first last r =
      (first ≤ last)
      × (last < o.max_attempts)
      × ((k : ℕ) → first ≤ k → k < last → retryable should_retry (operation k) ≡ true)
      × ((retryable should_retry (operation last) ≡ false) ⊎ (last + 1 ≡ o.max_attempts))
      × (r.result ≡ lift (operation last))
      × (r.calls ≡ last - first + 1)
      × (r.pauses ≡ pauses_from first (last - first))

  retry_from-stop :
      (left first : ℕ)
      → first + suc left ≡ o.max_attempts
      → (retryable should_retry (operation first) ≡ false) ⊎ (left ≡ 0)
      → EndsAt first first (retry_from jitter operation o should_retry (suc left) first)
  unfolding retry_from
  retry_from-stop left first h (inl e) = (
    omega arith,
    omega arith,
    λ k a b. absurd (omega arith),
    inl e,
    ground arith,
    ground arith,
    ground arith,
  )
  retry_from-stop left first h (inr e) = (
    omega arith,
    omega arith,
    λ k a b. absurd (omega arith),
    inr (omega arith),
    ground arith,
    ground arith,
    ground arith,
  )

  pauses_from-step :
      (first last : ℕ)
      → first < last
      → pauses_from first (last - first)
        ≡ calculate_backoff jitter first o ∷ pauses_from (first + 1) (last - (first + 1))
  pauses_from-step first last h =
      let e : last - first ≡ suc (last - (first + 1)) = omega arith in rw e

  retry_from-EndsAt :
      (left first : ℕ)
      → first + suc left ≡ o.max_attempts
      → (last : ℕ) × EndsAt first last (retry_from jitter operation o should_retry (suc left) first)
  unfolding retry_from
  retry_from-EndsAt zero first h = (first, retry_from-stop zero first h (inr refl))
  retry_from-EndsAt (suc left) first h =
      elim (Bool-cases (retryable should_retry (operation first))) [
        | inr stop ↦ (first, retry_from-stop (suc left) first h (inl stop))
        | inl again ↦
            let (last, ends) = retry_from-EndsAt left (first + 1) (omega arith) in
            (
              last,
              (
                omega arith,
                ends.1,
                range_step (λ k. retryable should_retry (operation k) ≡ true) first last again
                    ends.2,
                ends.3,
                ground arith,
                ground arith,
                ground (arith, pauses_from-step first last),
              ),
            )
      ]

  retry_from-EndsAt_pos :
      (n : ℕ)
      → n ≡ o.max_attempts
      → 0 < n
      → (last : ℕ) × EndsAt 0 last (retry_from jitter operation o should_retry n 0)
  retry_from-EndsAt_pos zero e h = elim h [ ]
  retry_from-EndsAt_pos (suc left) e h = retry_from-EndsAt left 0 (omega arith)

  -- With at least one attempt allowed, `retryWithBackoff` ends with some attempt `last`: every earlier
  -- one failed with an error to retry, and `last` succeeded, or failed with one not to retry, or was
  -- the last allowed. Its value or error is the result, the operation was called `last + 1` times, and
  -- each pause between is the backoff of its attempt.
  pub retry_with_backoff-EndsAt :
      0 < o.max_attempts
      → (last : ℕ) × EndsAt 0 last (retry_with_backoff jitter operation o should_retry)
  unfolding retry_with_backoff
  retry_with_backoff-EndsAt = retry_from-EndsAt_pos o.max_attempts refl

  retry_from-bounded :
      ((n d : ℕ) → jitter n d ≤ d)
      → (left first : ℕ)
      → let r = retry_from jitter operation o should_retry left first in
        (r.calls ≤ left) × All (λ d. d ≤ o.max_delay_ms) r.pauses
  unfolding retry_from calculate_backoff
  retry_from-bounded j zero first = (omega arith, tt)
  retry_from-bounded j (suc left) first = ground (
    arith,
    retry_from-bounded j left (first + 1),
    j first (min (o.base_delay_ms * 2 ^ first) o.max_delay_ms),
  )

  -- It never makes more attempts than allowed, and no pause is longer than the cap.
  pub retry_with_backoff-bounded :
      ((n d : ℕ) → jitter n d ≤ d)
      → let r = retry_with_backoff jitter operation o should_retry in
        (r.calls ≤ o.max_attempts) × All (λ d. d ≤ o.max_delay_ms) r.pauses
  unfolding retry_with_backoff
  retry_with_backoff-bounded j = retry_from-bounded j o.max_attempts 0
