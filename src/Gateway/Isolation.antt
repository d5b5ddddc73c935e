-- ===== src/Gateway/Isolation.antt =====
-- The shared map keeps the services apart.
use nexus_commerce.Base.{
  ◌≡◌, ap, refl, ◌∙◌, Bool, String, List, [], ◌∷◌, ◌++◌, str_eq, str_eq→eq, Bool-cases, inl, inr,
  if◌then◌else◌,
}
use nexus_commerce.Gateway.{
  CircuitBreakerState, GatewayConfig, GatewayEvent, handle, Services, put,
  circuit_breaker_middleware,
}

-- The circuit of one service after its events, with the verdicts on its requests.
abbrev pub handle_all :
    GatewayConfig → List GatewayEvent → CircuitBreakerState → CircuitBreakerState × List Bool
handle_all o [] c = (c, [])
handle_all o (e ∷ es) c =
    let (c', verdicts) = handle o e c in
    let (c'', rest) = handle_all o es c' in (c'', verdicts ++ rest)

-- The gateway after the events of all services, with the verdicts on the requests of `service`.
unfoldable pub serve :
    GatewayConfig → String → List (String × GatewayEvent) → Services → Services × List Bool
serve o service [] m = (m, [])
serve o service ((name, e) ∷ es) m =
    let (m', verdicts) = circuit_breaker_middleware o name e m in
    let (m'', rest) = serve o service es m' in
    (m'', if str_eq name service then verdicts ++ rest else rest)

abbrev pub events_of : String → List (String × GatewayEvent) → List GatewayEvent
events_of service [] = []
events_of service ((name, e) ∷ es) =
    if str_eq name service then e ∷ events_of service es else events_of service es

-- Whatever the other services do in between, a service's circuit and the verdicts on its requests are
-- those of a breaker of its own that sees only its events.
pub serve-own_breaker :
    (o : GatewayConfig) (service : String) (es : List (String × GatewayEvent)) (m : Services)
    → let (m', verdicts) = serve o service es m in
      let (c, own) = handle_all o (events_of service es) (m service) in
      (m' service ≡ c) × (verdicts ≡ own)
unfolding serve circuit_breaker_middleware
serve-own_breaker o service [] m = (refl, refl)
serve-own_breaker o service ((name, e) ∷ es) m =
    let m' = put name (handle o e (m name)).0 m in
    let (circuit, verdicts) = serve-own_breaker o service es m' in
    elim (Bool-cases (str_eq name service)) [
      | inl hit ↦
          let same : name ≡ service = str_eq→eq name service hit in
          let here : m' service ≡ (handle o e (m service)).0 =
            (rw hit refl) ∙ ap (λ n. (handle o e (m n)).0) same in
          rw hit (
            circuit ∙ ap (λ c. (handle_all o (events_of service es) c).0) here,
            ap (λ n. (handle o e (m n)).1 ++ (serve o service es m').1) same
                ∙ ap (λ vs. (handle o e (m service)).1 ++ vs)
                    (verdicts ∙ ap (λ c. (handle_all o (events_of service es) c).1) here),
          )
      | inr miss ↦
          let here : m' service ≡ m service = rw miss refl in
          rw miss (
            circuit ∙ ap (λ c. (handle_all o (events_of service es) c).0) here,
            verdicts ∙ ap (λ c. (handle_all o (events_of service es) c).1) here,
          )
    ]
