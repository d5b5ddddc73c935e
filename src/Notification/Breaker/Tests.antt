-- ===== src/Notification/Breaker/Tests.antt =====
-- The breaker on concrete calls.
use nexus_commerce.Base.{
  ℕ, ◌+◌, ◌≡◌, refl, Bool, true, false, Result, ok, err, List, [], ◌∷◌, arith,
}
use nexus_commerce.Notification.Breaker.{Options, Breaker, opened, half_open, new, settle, execute}
use nexus_commerce.Notification.Breaker.Laws.{
  settle_all, trips, CountsToThreshold, settle_all-opens,
}
use nexus_commerce.Notification.Breaker.Concurrency.{
  System, start, Reach, here, next, begin, call, call_all, call_all-in_flight,
}

-- An error is whether it is to be counted.
abbrev two_strikes : Options Bool
two_strikes = record { failure_threshold = 2; reset_timeout_ms = 1000; should_trip = λ e. e }

abbrev Reply : Type 0
Reply = Result Bool ℕ

abbrev tripped : Breaker
tripped = record {
  state = opened;
  failure_count = 2;
  last_failure_time = 30;
  half_open_in_flight = false;
}

abbrev history : List (ℕ × Reply)
history = (10, err true) ∷ (20, ok 7) ∷ (25, err false) ∷ (30, err true) ∷ []

two_failures_open : settle_all two_strikes history new ≡ tripped
unfolding settle
two_failures_open = refl

settle_all-opens_example :
    let b = settle_all two_strikes history new in
    CountsToThreshold two_strikes b × (b.failure_count ≡ 0 + trips two_strikes history)
settle_all-opens_example = settle_all-opens two_strikes history new refl

abbrev one_call : System
one_call = call two_strikes 10 start

one_call-Reach : Reach ℕ two_strikes one_call
one_call-Reach = next here (begin 10)

abbrev idle : System
idle = record { breaker = tripped; in_flight = 0 }

call_all-in_flight_example :
    let s = call_all two_strikes (1030 ∷ 1031 ∷ 1032 ∷ []) idle in
    (s.in_flight ≡ 3) × (s.breaker.state ≡ half_open)
call_all-in_flight_example =
    call_all-in_flight two_strikes 1030 (1031 ∷ 1032 ∷ []) idle refl refl (omega arith)

-- A trial that fails with an error that does not count leaves the breaker HALF_OPEN.
half_open_stays :
    let b = (execute {A = ℕ} two_strikes 1030 1040 (err false) tripped).0 in
    (b.state ≡ half_open) × (b.half_open_in_flight ≡ true)
unfolding execute
half_open_stays = (refl, refl)
