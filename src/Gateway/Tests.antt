-- ===== src/Gateway/Tests.antt =====
-- The gateway with two services, one of which fails.
use nexus_commerce.Base.{◌≡◌, true, false, String, List, [], ◌∷◌}
use nexus_commerce.Gateway.{
  opened, CircuitBreakerState, GatewayConfig, GatewayEvent, request, response, fresh,
}
use nexus_commerce.Gateway.Isolation.{serve, serve-own_breaker}

abbrev config : GatewayConfig
config = record { threshold = 2; timeout = 100; reset_timeout = 50 }

abbrev traffic : List (String × GatewayEvent)
traffic =
    ("auth", request 10)
    ∷ ("user", request 11)
    ∷ ("auth", response 12 503)
    ∷ ("auth", request 13)
    ∷ ("user", response 14 200)
    ∷ ("auth", response 15 500)
    ∷ ("auth", request 16)
    ∷ ("user", request 17)
    ∷ []

abbrev tripped : CircuitBreakerState
tripped = record { failures = 2; last_failure_time = 15; state = opened }

-- The failures open the circuit of `auth`, which blocks the request after them.
traffic_runs :
    let (m, verdicts) = serve config "auth" traffic (λ s. fresh) in
    (m "auth" ≡ tripped) × (verdicts ≡ false ∷ false ∷ true ∷ [])
traffic_runs = serve-own_breaker config "auth" traffic (λ s. fresh)

abbrev later_traffic : List (String × GatewayEvent)
later_traffic =
    ("auth", request 20)
    ∷ ("user", response 25 500)
    ∷ ("auth", response 30 200)
    ∷ ("auth", request 60)
    ∷ []
