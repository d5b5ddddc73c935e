-- ===== src/Notification/Breaker/Laws.antt =====
-- What calls that do not overlap see of the breaker.
use nexus_commerce.Base.{
  ℕ, ◌+◌, ◌≤◌, ◌<◌, ◌≡◌, ◌↔◌, true, false, Result, ok, err, List, [], ◌∷◌, arith, leb,
  if◌then◌else◌,
}
use nexus_commerce.Notification.Breaker.{
  closed, opened, half_open, Options, Breaker, unavailable, refused, returned, new, settle, execute,
}

-- How many of the results are failures that count.
abbrev pub trips : {E A : Type 0} → Options E → List (ℕ × Result E A) → ℕ
trips o [] = 0
trips o ((_, ok _) ∷ results) = trips o results
trips o ((_, err e) ∷ results) = (if o.should_trip e then 1 else 0) + trips o results

-- Operations that were let through end one after the other.
abbrev pub settle_all : {E A : Type 0} → Options E → List (ℕ × Result E A) → Breaker → Breaker
settle_all o [] b = b
settle_all o ((now, r) ∷ results) b = settle_all o results (settle o now r b)

abbrev pub CountsToThreshold : {E : Type 0} → Options E → Breaker → Type 0
CountsToThreshold o b =
    b.state ≡ (if leb o.failure_threshold b.failure_count then opened else closed)

settle-CountsToThreshold :
    {E A : Type 0} (o : Options E) (now : ℕ) (r : Result E A) (b : Breaker)
    → CountsToThreshold o b
    → let b' = settle o now r b in
      CountsToThreshold o b' × (b'.failure_count ≡ b.failure_count + trips o ((now, r) ∷ []))
unfolding settle
settle-CountsToThreshold o now (ok a) b h = ground arith
settle-CountsToThreshold o now (err e) b h = ground arith

-- Where the state is OPEN if the failure count has reached the threshold and CLOSED if not, that
-- stays so after any results, and the count has grown by the number of failures that trip. What
-- succeeds between them resets nothing, so the failures need not be consecutive.
pub settle_all-opens :
    {E A : Type 0} (o : Options E) (results : List (ℕ × Result E A)) (b : Breaker)
    → CountsToThreshold o b
    → let b' = settle_all o results b in
      CountsToThreshold o b' × (b'.failure_count ≡ b.failure_count + trips o results)
settle_all-opens o [] b h = (h, omega arith)
settle_all-opens o ((now, r) ∷ results) b h =
    let step = settle-CountsToThreshold o now r b h in
    ground (arith, settle_all-opens o results (settle o now r b) step.0, step)

-- A breaker that has waited out its reset timeout is, after one call that succeeds, a fresh breaker
-- but for the time of its last failure; the call returns what the operation gave.
pub execute-recovers :
    {E A : Type 0} (o : Options E) (now later : ℕ) (a : A) (b : Breaker)
    → b.state ≡ opened
    → b.half_open_in_flight ≡ false
    → b.last_failure_time + o.reset_timeout_ms ≤ now
    → execute o now later (ok a) b
      ≡ (record new { last_failure_time = b.last_failure_time }, returned a)
unfolding execute
execute-recovers o now later a b h flag waited = ground arith

-- One call, in any state that the breaker reaches: it fails fast exactly when the breaker is OPEN and
-- the timeout has not passed; if not, the caller gets what the operation gave.
pub execute-outcome :
    {E A : Type 0} (o : Options E) (now later : ℕ) (r : Result E A) (b : Breaker)
    → (b.half_open_in_flight ≡ true → b.state ≡ half_open)
    → ((execute o now later r b).1 ≡ refused unavailable)
      ↔ ((b.state ≡ opened) × (now < b.last_failure_time + o.reset_timeout_ms))
unfolding execute
execute-outcome o now later (ok a) b flag = (λ h. ground arith, λ h. ground arith)
execute-outcome o now later (err e) b flag = (λ h. ground arith, λ h. ground arith)
