-- ===== src/Cache/Circuit.antt =====
-- services/user-service/src/cache/circuitBreaker.ts. A call is `enter`, the awaited function, and then
-- `succeed` or `fail`, each with the time at which it reads the clock.
pub mod Laws
pub mod Probes
mod Tests
use nexus_commerce.Base.{
  ℕ, ◌+◌, Bool, true, false, ◌&&◌, Option, none, some, List, [], ◌∷◌, ◌++◌, Result, ok, err, ltb,
  leb, length, if◌then◌else◌,
}

pub data CircuitState : Type 0 where
  closed opened half_open : CircuitState

pub record CircuitBreakerOptions : Type 0 where
  pub failure_threshold : ℕ
  pub failure_window_ms : ℕ
  pub reset_timeout_ms : ℕ
  pub half_open_max_retries : ℕ

-- `CircuitStateInternal`, and the times of the failures, the earliest first.
pub record Circuit : Type 0 where
  pub state : CircuitState
  pub failure_count : ℕ
  pub last_failure_time : ℕ
  pub last_state_change : ℕ
  pub half_open_attempts : ℕ
  pub consecutive_successes : ℕ
  pub failure_timestamps : List ℕ

abbrev pub new_circuit : ℕ → Circuit
new_circuit now = record {
  state = closed;
  failure_count = 0;
  last_failure_time = 0;
  last_state_change = now;
  half_open_attempts = 0;
  consecutive_successes = 0;
  failure_timestamps = [];
}

-- `transitionTo`
abbrev pub transition_to : CircuitState → ℕ → Circuit → Circuit
transition_to closed now c = record {
  state = closed;
  failure_count = 0;
  last_failure_time = c.last_failure_time;
  last_state_change = now;
  half_open_attempts = 0;
  consecutive_successes = 0;
  failure_timestamps = [];
}
transition_to opened now c = record c { state = opened; last_state_change = now }
transition_to half_open now c = record c { state = half_open; last_state_change = now }

-- The loop of `pruneFailureTimestamps`, which drops the times before `now - failureWindowMs`.
abbrev pub drop_old : ℕ → ℕ → List ℕ → List ℕ
drop_old window now [] = []
drop_old window now (t ∷ ts) = if ltb (t + window) now then drop_old window now ts else t ∷ ts

-- `pruneFailureTimestamps`
abbrev pub prune_failure_timestamps : CircuitBreakerOptions → ℕ → Circuit → Circuit
prune_failure_timestamps o now c =
    let ts = drop_old o.failure_window_ms now c.failure_timestamps in
    record c { failure_timestamps = ts; failure_count = length ts }

-- Whether the function is called, or why not: the two CircuitBreakerErrors.
pub data Verdict : Type 0 where
  run fail_fast probes_spent : Verdict

-- The second test of `execute`, in the state HALF_OPEN.
abbrev pub probe : CircuitBreakerOptions → ℕ → Circuit → Circuit × Verdict
probe o now c =
    if leb o.half_open_max_retries c.half_open_attempts
    then (record (transition_to opened now c) { half_open_attempts = 0 }, probes_spent)
    else (record c { half_open_attempts = c.half_open_attempts + 1 }, run)

abbrev pub enter_in : CircuitState → CircuitBreakerOptions → ℕ → Circuit → Circuit × Verdict
enter_in closed o now c = (c, run)
enter_in half_open o now c = probe o now c
enter_in opened o now c =
    if leb (c.last_state_change + o.reset_timeout_ms) now
    then probe o now (transition_to half_open now c)
    else (c, fail_fast)

-- `execute` up to the call of the function
pub enter : CircuitBreakerOptions → ℕ → Circuit → Circuit × Verdict
enter o now c = enter_in c.state o now (prune_failure_timestamps o now c)

abbrev pub succeed_in : CircuitState → ℕ → Circuit → Circuit
succeed_in half_open now c =
    let successes = c.consecutive_successes + 1 in
    if leb 2 successes
    then transition_to closed now c
    else record c { consecutive_successes = successes }
succeed_in _ now c = record c { failure_count = 0 }

-- `execute` once the function has returned
pub succeed : ℕ → Circuit → Circuit
succeed now c = succeed_in c.state now c

abbrev pub trip : CircuitState → CircuitBreakerOptions → ℕ → Circuit → Circuit
trip closed o now c =
    if leb o.failure_threshold (length c.failure_timestamps) then transition_to opened now c else c
trip half_open o now c = transition_to opened now c
trip opened o now c = c

-- `execute` once the function has thrown: `recordFailure`, and the failure of a probe
pub fail : CircuitBreakerOptions → ℕ → Circuit → Circuit
fail o now c =
    let ts = c.failure_timestamps ++ now ∷ [] in
    trip c.state o now
      (record c { failure_timestamps = ts; last_failure_time = now; failure_count = length ts })

-- What `execute` gives: the value, the function's error, the breaker's, or the fallback's result.
pub data Answer (E A : Type 0) : Type 0 where
  value : A → Answer E A
  thrown : E → Answer E A
  refused : Verdict → Answer E A
  fell_back : Result E A → Answer E A

abbrev pub refuse : {E A : Type 0} → Verdict → Option (Result E A) → Answer E A
refuse v none = refused v
refuse v (some r) = fell_back r

abbrev pub settle_call :
    {E A : Type 0}
    → CircuitBreakerOptions
    → ℕ
    → Result E A
    → Option (Result E A)
    → Circuit × Verdict
    → Circuit × Answer E A
settle_call o later (ok a) fallback (c, run) = (succeed later c, value a)
settle_call o later (err e) fallback (c, run) = (fail o later c, thrown e)
settle_call o later r fallback (c, fail_fast) = (c, refuse fail_fast fallback)
settle_call o later r fallback (c, probes_spent) = (c, refuse probes_spent fallback)

-- `execute` when no other call comes between: entered at `now`, settled at `later`.
pub execute_call :
    {E A : Type 0}
    → CircuitBreakerOptions
    → ℕ
    → ℕ
    → Result E A
    → Option (Result E A)
    → Circuit
    → Circuit × Answer E A
execute_call o now later r fallback c = settle_call o later r fallback (enter o now c)
