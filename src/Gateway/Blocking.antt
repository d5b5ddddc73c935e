-- ===== src/Gateway/Blocking.antt =====
-- What an OPEN circuit does to requests.
use nexus_commerce.Base.{
  ℕ, ◌+◌, ◌≡◌, ◌≤◌, ◌<◌, ap, refl, ◌∙◌, Bool, true, List, [], ◌∷◌, All, leb, lt→leb, arith,
  Bool-cases, inl, inr,
}
use nexus_commerce.Gateway.{
  opened, CircuitBreakerState, GatewayConfig, GatewayEvent, request, response, refresh_in,
  is_opened, success_in, respond, failure_in,
}
use nexus_commerce.Gateway.Isolation.{handle_all}

abbrev pub time_of : GatewayEvent → ℕ
time_of (request now) = now
time_of (response now status) = now

abbrev pub all_blocked : List GatewayEvent → List Bool
all_blocked [] = []
all_blocked (request now ∷ es) = true ∷ all_blocked es
all_blocked (response now status ∷ es) = all_blocked es

refresh-opened :
    (o : GatewayConfig) (now : ℕ) (c : CircuitBreakerState)
    → c.state ≡ opened
    → now < c.last_failure_time + o.reset_timeout
    → refresh_in c.state o now c ≡ c
refresh-opened o now c is_op early =
    let shut = lt→leb (c.last_failure_time + o.reset_timeout) now early in
    ap (λ st. refresh_in st o now c) is_op ∙ (rw shut refl)

-- A response leaves an OPEN circuit OPEN, since the same time or since the response.
respond-opened :
    (o : GatewayConfig) (from now status : ℕ) (c : CircuitBreakerState)
    → c.state ≡ opened
    → from ≤ c.last_failure_time
    → from ≤ now
    → let c' = respond o now status c in (c'.state ≡ opened) × (from ≤ c'.last_failure_time)
respond-opened o from now status c is_op since later = elim (Bool-cases (leb 500 status)) [
  | inr success ↦
      let same : success_in c.state c ≡ c = ap (λ st. success_in st c) is_op in
      rw (success, same) (is_op, since)
  | inl failure ↦ elim (Bool-cases (leb o.threshold (c.failures + 1))) [
    | inl reached ↦ rw (failure, reached) (refl, later)
    | inr below ↦ rw (failure, below) (ap failure_in is_op, later)
  ]
]

-- From the time at which a circuit opened, or later failed, until the reset timeout has passed, every
-- request of the service is blocked and the circuit stays OPEN, whatever responses to earlier
-- requests still arrive, successes included.
pub handle_all-blocked :
    (o : GatewayConfig) (from : ℕ) (es : List GatewayEvent) (c : CircuitBreakerState)
    → c.state ≡ opened
    → from ≤ c.last_failure_time
    → All (λ e. (from ≤ time_of e) × (time_of e < from + o.reset_timeout)) es
    → let (c', verdicts) = handle_all o es c in (verdicts ≡ all_blocked es) × (c'.state ≡ opened)
handle_all-blocked o from [] c is_op since within = (refl, is_op)
handle_all-blocked o from (request now ∷ es) c is_op since within =
    let same = refresh-opened o now c is_op (let h = within.0.1 in omega arith) in
    let (verdicts, still) = handle_all-blocked o from es c is_op since within.1 in
    let blocked : is_opened c.state ≡ true = ap is_opened is_op in
    (
      ap (λ d. is_opened d.state ∷ (handle_all o es d).1) same
          ∙ ap (λ b. b ∷ (handle_all o es c).1) blocked
          ∙ ap (λ vs. true ∷ vs) verdicts,
      ap (λ d. (handle_all o es d).0.state) same ∙ still,
    )
handle_all-blocked o from (response now status ∷ es) c is_op since within =
    let (still, later) = respond-opened o from now status c is_op since within.0.0 in
    handle_all-blocked o from es (respond o now status c) still later within.1
