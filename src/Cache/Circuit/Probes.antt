-- ===== src/Cache/Circuit/Probes.antt =====
-- The probes that a HALF_OPEN circuit makes.
use nexus_commerce.Base.{
  ℕ, ◌+◌, ◌≡◌, ◌≤◌, ◌<◌, ap, refl, ◌∙◌, true, none, List, [], ◌∷◌, ok, err, leb, length, arith,
  le→leb, lt→leb,
}
use nexus_commerce.Cache.Circuit.{
  closed, opened, half_open, CircuitBreakerOptions, Circuit, transition_to,
  prune_failure_timestamps, run, fail_fast, Answer, probes_spent, enter, enter_in, succeed, fail,
  value, refused, settle_call, execute_call,
}
use nexus_commerce.Cache.Circuit.Laws.{fail_all, execute_call-refused}

-- Each call is entered at least the reset timeout after the one before failed.
abbrev pub IsSpaced : ℕ → ℕ → List (ℕ × ℕ) → Type 0
IsSpaced reset last [] = Unit
IsSpaced reset last ((now, later) ∷ calls) = (last + reset ≤ now) × IsSpaced reset later calls

abbrev pub last_of : ℕ → List (ℕ × ℕ) → ℕ
last_of last [] = last
last_of last ((now, later) ∷ calls) = last_of later calls

abbrev probing : CircuitBreakerOptions → ℕ → Circuit → Circuit
probing o now c = record (transition_to half_open now (prune_failure_timestamps o now c)) {
  half_open_attempts = c.half_open_attempts + 1;
}

enter-probing :
    (o : CircuitBreakerOptions) (now : ℕ) (c : Circuit)
    → c.state ≡ opened
    → c.last_state_change + o.reset_timeout_ms ≤ now
    → c.half_open_attempts < o.half_open_max_retries
    → enter o now c ≡ (probing o now c, run)
unfolding enter
enter-probing o now c is_open due left =
    let passed = le→leb (c.last_state_change + o.reset_timeout_ms) now due in
    let allowed = lt→leb o.half_open_max_retries c.half_open_attempts left in
    ap (λ st. enter_in st o now (prune_failure_timestamps o now c)) is_open
    ∙ (rw (passed, allowed) refl)

-- The circuit after a probe that failed.
abbrev failed_probe : CircuitBreakerOptions → ℕ → ℕ → Circuit → Circuit
failed_probe o now later c = fail o later (probing o now c)

execute_call-failed_probe :
    {E : Type 0} (o : CircuitBreakerOptions) (e : E) (now later : ℕ) (c : Circuit)
    → c.state ≡ opened
    → c.last_state_change + o.reset_timeout_ms ≤ now
    → c.half_open_attempts < o.half_open_max_retries
    → let c' = (execute_call {A = Unit {0}} o now later (err e) none c).0 in
      (c'.state ≡ opened)
      × ((c'.last_state_change ≡ later) × (c'.half_open_attempts ≡ c.half_open_attempts + 1))
unfolding execute_call fail
execute_call-failed_probe o e now later c is_open due left =
    rw (enter-probing o now c is_open due left) (refl, (refl, refl))

fail_all-probes :
    {E : Type 0} (o : CircuitBreakerOptions) (e : E) (times : List (ℕ × ℕ)) (c : Circuit)
    → c.state ≡ opened
    → IsSpaced o.reset_timeout_ms c.last_state_change times
    → c.half_open_attempts + length times ≤ o.half_open_max_retries
    → let c' = fail_all o e times c in
      (c'.state ≡ opened)
      × ((c'.last_state_change ≡ last_of c.last_state_change times)
          × (c'.half_open_attempts ≡ c.half_open_attempts + length times))
unfolding fail_all
fail_all-probes o e [] c is_open spaced bound = (is_open, (refl, omega arith))
fail_all-probes o e ((now, later) ∷ times) c is_open spaced bound =
    let c' = (execute_call {A = Unit {0}} o now later (err e) none c).0 in
    let (still, (since, count)) =
      execute_call-failed_probe o e now later c is_open spaced.0 (omega (arith, bound)) in
    let (still', (since', count')) =
      fail_all-probes o e times c' still (rw since spaced.1) (rw count (omega (arith, bound))) in
    (
      still',
      (
        since' ∙ ap (λ t. last_of t times) since,
        count' ∙ ap (λ n. n + length times) count ∙ omega arith,
      ),
    )

-- After as many failed probes as `halfOpenMaxRetries`, each in a HALF_OPEN period of its own and however
-- long it takes, a call before the reset timeout has passed, counted from the time at which the last of
-- them failed, fails fast; and the next call to come once it has passed is refused without a probe, even
-- if the function would succeed, and keeps the circuit OPEN for another reset timeout.
pub fail_all-probes_spent :
    {E A : Type 0} (o : CircuitBreakerOptions) (e : E) (times : List (ℕ × ℕ)) (early now later : ℕ)
    (a : A) (c : Circuit)
    → c.state ≡ opened
    → c.half_open_attempts ≡ 0
    → length times ≡ o.half_open_max_retries
    → IsSpaced o.reset_timeout_ms c.last_state_change times
    → early < last_of c.last_state_change times + o.reset_timeout_ms
    → last_of c.last_state_change times + o.reset_timeout_ms ≤ now
    → let d = fail_all o e times c in
      let (c', answer) = execute_call {E = E} o now later (ok a) none d in
      ((execute_call {E = E} o early later (ok a) none d).1 ≡ refused fail_fast)
      × (answer ≡ refused probes_spent)
      × ((c'.state ≡ opened) × ((c'.last_state_change ≡ now) × (c'.half_open_attempts ≡ 0)))
unfolding execute_call enter
fail_all-probes_spent {E = E₁} {A = A₁} o e times early now later a c is_open none_yet all_used
      spaced soon due =
    let d = fail_all o e times c in
    let (still, (since, count)) =
      fail_all-probes o e times c is_open spaced (omega (arith, none_yet, all_used)) in
    let passed : leb (d.last_state_change + o.reset_timeout_ms) now ≡ true =
      le→leb (d.last_state_change + o.reset_timeout_ms) now (rw since due) in
    let spent : leb o.half_open_max_retries d.half_open_attempts ≡ true =
      le→leb o.half_open_max_retries d.half_open_attempts
        (omega (arith, count, none_yet, all_used)) in
    let refusal : execute_call {E = E₁} o now later (ok a) none d ≡ (
      record (transition_to opened now (prune_failure_timestamps o now d)) {
        half_open_attempts = 0;
      },
      refused probes_spent,
    ) =
      ap
        (λ st.
          settle_call o later (ok a) none (enter_in st o now (prune_failure_timestamps o now d)))
        still
      ∙ (rw (passed, spent) refl) in
    let shut : early < d.last_state_change + o.reset_timeout_ms = rw since soon in
    (
      ap (λ (p : Circuit × Answer E₁ A₁). p.1)
          (execute_call-refused {E = E₁} {A = A₁} o early later (ok a) d still shut),
      rw refusal refl,
      rw refusal (refl, (refl, refl)),
    )

-- Once the reset timeout of an OPEN circuit has passed, two calls that succeed, with two attempts
-- left and no success on record, give their values and close the circuit with every count at zero
-- and no failure on record.
pub execute_call-recovers :
    {E A : Type 0} (o : CircuitBreakerOptions) (now later now' later' : ℕ) (a a' : A) (c : Circuit)
    → c.state ≡ opened
    → c.last_state_change + o.reset_timeout_ms ≤ now
    → c.half_open_attempts + 2 ≤ o.half_open_max_retries
    → c.consecutive_successes ≡ 0
    → let (c₁, first) = execute_call {E = E} o now later (ok a) none c in
      let (c₂, second) = execute_call {E = E} o now' later' (ok a') none c₁ in
      (first ≡ value a)
      × ((second ≡ value a')
          × (c₂
              ≡ record (transition_to closed later' c) { last_failure_time = c.last_failure_time }))
unfolding execute_call enter succeed
execute_call-recovers o now later now' later' a a' c is_open due left none_yet =
    let passed = le→leb (c.last_state_change + o.reset_timeout_ms) now due in
    let allowed = lt→leb o.half_open_max_retries c.half_open_attempts (omega (arith, left)) in
    let allowed' =
      lt→leb o.half_open_max_retries (c.half_open_attempts + 1) (omega (arith, left)) in
    rw (enter-probing o now c is_open due (omega (arith, left)), none_yet, allowed')
      (refl, (refl, refl))
