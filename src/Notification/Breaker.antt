-- ===== src/Notification/Breaker.antt =====
-- services/notification-service/src/resilience/circuitBreaker.ts. A call of `execute` is cut at its
-- `await`: `admit` is what runs before it, `settle` what runs after it. Between the two other calls
-- may run. A time is a number of milliseconds, given at each reading of `Date.now()`.
pub mod Laws
pub mod Concurrency
mod Tests
use nexus_commerce.Base.{
  ℕ, ◌+◌, Bool, true, false, Option, none, some, Result, ok, err, List, [], ◌∷◌, leb, if◌then◌else◌,
}

-- `CircuitBreakerState`; `opened` is "OPEN".
pub data State : Type 0 where
  closed opened half_open : State

pub record Options (E : Type 0) : Type 0 where
  pub failure_threshold : ℕ
  pub reset_timeout_ms : ℕ
  pub should_trip : E → Bool

pub record Breaker : Type 0 where
  pub state : State
  pub failure_count : ℕ
  pub last_failure_time : ℕ
  pub half_open_in_flight : Bool

-- The two messages of `CircuitBreakerError` in `execute`.
pub data Refusal : Type 0 where
  trial_in_flight unavailable : Refusal

-- What `execute` throws or returns.
pub data Outcome (E A : Type 0) : Type 0 where
  returned : A → Outcome E A
  threw : E → Outcome E A
  refused : Refusal → Outcome E A

abbrev pub new : Breaker
new = record {
  state = closed;
  failure_count = 0;
  last_failure_time = 0;
  half_open_in_flight = false;
}

-- The start of `execute`: `none` lets the operation run.
admit_in : {E : Type 0} → State → Options E → ℕ → Breaker → Breaker × Option Refusal
admit_in opened o now b =
    if leb (b.last_failure_time + o.reset_timeout_ms) now
    then if b.half_open_in_flight
      then (b, some trial_in_flight)
      else (record b { state = half_open; half_open_in_flight = true }, none)
    else (b, some unavailable)
admit_in _ o now b = (b, none)

pub admit : {E : Type 0} → Options E → ℕ → Breaker → Breaker × Option Refusal
unfolding admit_in
admit o now b = admit_in b.state o now b

on_success_in : State → Breaker → Breaker
on_success_in half_open b = record b {
  state = closed;
  failure_count = 0;
  half_open_in_flight = false;
}
on_success_in _ b = b

pub on_success : Breaker → Breaker
unfolding on_success_in
on_success b = on_success_in b.state b

on_failure_in : {E : Type 0} → State → Options E → ℕ → Breaker → Breaker
on_failure_in half_open o now b = record b {
  last_failure_time = now;
  state = opened;
  half_open_in_flight = false;
}
on_failure_in st o now b = record b {
  last_failure_time = now;
  failure_count = b.failure_count + 1;
  state = if leb o.failure_threshold (b.failure_count + 1) then opened else st;
}

pub on_failure : {E : Type 0} → Options E → ℕ → Breaker → Breaker
unfolding on_failure_in
on_failure o now b = on_failure_in b.state o now b

-- The end of `execute`, with what the operation resolved to.
pub settle : {E A : Type 0} → Options E → ℕ → Result E A → Breaker → Breaker
unfolding on_success on_failure
settle o now (ok a) b = on_success b
settle o now (err e) b = if o.should_trip e then on_failure o now b else b

abbrev outcome_of : {E A : Type 0} → Result E A → Outcome E A
outcome_of (ok a) = returned a
outcome_of (err e) = threw e

-- One call with no other call during its `await`; it starts at `now` and its operation ends at
-- `later` with `result`.
pub execute : {E A : Type 0} → Options E → ℕ → ℕ → Result E A → Breaker → Breaker × Outcome E A
unfolding admit settle
execute o now later result b =
    let (b', refusal) = admit o now b in
    elim refusal [ some r ↦ (b', refused r) | none ↦ (settle o later result b', outcome_of result) ]
