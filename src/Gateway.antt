-- ===== src/Gateway.antt =====
-- services/api-gateway/src/middlewares/circuitBreaker.ts: the breaker in front of the services, one
-- entry of the shared map for each service. A service without an entry has a fresh one.
pub mod Blocking
pub mod Isolation
mod Tests
use nexus_commerce.Base.{
  ℕ, ◌+◌, Bool, true, false, ◌&&◌, Option, none, some, String, List, [], ◌∷◌, ltb, leb, str_eq,
  if◌then◌else◌,
}

pub data ServiceState : Type 0 where
  closed opened half_open : ServiceState

pub record CircuitBreakerState : Type 0 where
  pub failures : ℕ
  pub last_failure_time : ℕ
  pub state : ServiceState

pub record GatewayConfig : Type 0 where
  pub threshold : ℕ
  pub timeout : ℕ
  pub reset_timeout : ℕ

abbrev pub fresh : CircuitBreakerState
fresh = record { failures = 0; last_failure_time = 0; state = closed }

abbrev pub refresh_in : ServiceState → GatewayConfig → ℕ → CircuitBreakerState → CircuitBreakerState
refresh_in opened o now c =
    if leb (c.last_failure_time + o.reset_timeout) now
    then record c { state = half_open; failures = 0 }
    else c
refresh_in closed o now c =
    if leb (c.last_failure_time + o.timeout) now && ltb 0 c.failures
    then record c { failures = 0 }
    else c
refresh_in half_open o now c = c

-- `refreshState`
abbrev pub refresh_state : GatewayConfig → ℕ → CircuitBreakerState → CircuitBreakerState
refresh_state o now c = refresh_in c.state o now c

abbrev pub success_in : ServiceState → CircuitBreakerState → CircuitBreakerState
success_in half_open c = record c { state = closed; failures = 0 }
success_in _ c = c

-- `recordSuccess`
abbrev pub record_success : CircuitBreakerState → CircuitBreakerState
record_success c = success_in c.state c

-- The state after a failure that does not reach the threshold.
abbrev pub failure_in : ServiceState → ServiceState
failure_in closed = closed
failure_in _ = opened

-- `recordFailure`
abbrev pub record_failure : GatewayConfig → ℕ → CircuitBreakerState → CircuitBreakerState
record_failure o now c = record {
  failures = c.failures + 1;
  last_failure_time = now;
  state = if leb o.threshold (c.failures + 1) then opened else failure_in c.state;
}

abbrev pub is_opened : ServiceState → Bool
is_opened opened = true
is_opened _ = false

-- `isOpen`
abbrev pub is_open : GatewayConfig → ℕ → CircuitBreakerState → CircuitBreakerState × Bool
is_open o now c = let c' = refresh_state o now c in (c', is_opened c'.state)

-- What the middleware meets: a request, which it blocks or lets through, and a response with its
-- status code, in any order of the requests and responses of the services.
pub data GatewayEvent : Type 0 where
  request : ℕ → GatewayEvent
  response : ℕ → ℕ → GatewayEvent

-- The response of a request that was let through: the replaced `res.json`.
abbrev pub respond : GatewayConfig → ℕ → ℕ → CircuitBreakerState → CircuitBreakerState
respond o now status c = if leb 500 status then record_failure o now c else record_success c

-- One event of a service, and the verdicts on the requests, where `true` is blocked.
abbrev pub handle :
    GatewayConfig → GatewayEvent → CircuitBreakerState → CircuitBreakerState × List Bool
handle o (request now) c = let (c', blocked) = is_open o now c in (c', blocked ∷ [])
handle o (response now status) c = (respond o now status c, [])

-- `services`
abbrev pub Services : Type 0
Services = String → CircuitBreakerState

abbrev pub put : String → CircuitBreakerState → Services → Services
put service c m other = if str_eq service other then c else m other

-- `circuitBreakerMiddleware` on an event of a service
pub circuit_breaker_middleware :
    GatewayConfig → String → GatewayEvent → Services → Services × List Bool
circuit_breaker_middleware o service event m =
    let (c, verdicts) = handle o event (m service) in (put service c m, verdicts)
