-- ===== src/Cache/Circuit/Tests.antt =====
-- The circuit at concrete options: two failures within 100 ms open it for 50 ms, two probes.
use nexus_commerce.Base.{ℕ, ◌≡◌, refl, none, List, [], ◌∷◌, ok, err, arith}
use nexus_commerce.Cache.Circuit.{
  opened, CircuitBreakerOptions, Circuit, new_circuit, transition_to, refused, fail_fast,
  probes_spent, execute_call,
}
use nexus_commerce.Cache.Circuit.Laws.{fail_all, fail_all-opens, Call}
use nexus_commerce.Cache.Circuit.Probes.{fail_all-probes_spent}

abbrev strict : CircuitBreakerOptions
strict = record {
  failure_threshold = 2;
  failure_window_ms = 100;
  reset_timeout_ms = 50;
  half_open_max_retries = 2;
}

abbrev tripped : Circuit
tripped = transition_to opened 20 (new_circuit 0)

abbrev early : List (Call ℕ ℕ)
early = (30, 31, ok 1) ∷ (40, 41, err 2) ∷ []

fail_all-opens_example :
    let c = fail_all {E = ℕ} strict 7 ((10, 15) ∷ (20, 90) ∷ []) (new_circuit 0) in
    (c.state ≡ opened) × (c.failure_timestamps ≡ 15 ∷ 90 ∷ [])
fail_all-opens_example =
    fail_all-opens {E = ℕ} strict 7 10 ((10, 15) ∷ (20, 90) ∷ []) (new_circuit 0) refl tt
      (omega arith) (omega arith)
      ((omega arith, omega arith, omega arith), ((omega arith, omega arith, omega arith), tt))

fail_all-probes_spent_example :
    let d = fail_all {E = ℕ} strict 7 ((70, 80) ∷ (130, 190) ∷ []) tripped in
    let (c, answer) = execute_call {E = ℕ} {A = ℕ} strict 250 251 (ok 5) none d in
    ((execute_call {E = ℕ} {A = ℕ} strict 200 251 (ok 5) none d).1 ≡ refused fail_fast)
    × (answer ≡ refused probes_spent)
    × ((c.state ≡ opened) × ((c.last_state_change ≡ 250) × (c.half_open_attempts ≡ 0)))
fail_all-probes_spent_example =
    fail_all-probes_spent {E = ℕ} {A = ℕ} strict 7 ((70, 80) ∷ (130, 190) ∷ []) 200 250 251 5
      tripped refl refl refl (omega arith, (omega arith, tt)) (omega arith) (omega arith)
