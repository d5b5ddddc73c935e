-- ===== src/Notification/Breaker/Concurrency.antt =====
-- Calls of `execute` whose awaits overlap: any number may be in flight.
use nexus_commerce.Base.{
  ℕ, ◌+◌, ◌-◌, ◌≤◌, ◌<◌, ◌≡◌, ◌≢◌, refl, Bool, true, false, Option, none, some, Result, ok, err,
  List, [], ◌∷◌, arith, length,
}
use nexus_commerce.Notification.Breaker.{
  State, opened, half_open, Options, Breaker, trial_in_flight, new, Refusal, admit, settle,
}

-- A breaker and the number of operations between `admit` and `settle`.
pub record System : Type 0 where
  pub breaker : Breaker
  pub in_flight : ℕ

abbrev pub start : System
start = record { breaker = new; in_flight = 0 }

abbrev pub enter : Option Refusal → ℕ → ℕ
enter none n = n + 1
enter (some r) n = n

abbrev pub call : {E : Type 0} → Options E → ℕ → System → System
call o now s =
    let (b, refusal) = admit o now s.breaker in
    record { breaker = b; in_flight = enter refusal s.in_flight }

module _ {E : Type 0} (A : Type 0) (o : Options E) where
  pub data Step (s : System) : System → Type 0 where
    begin : (now : ℕ) → Step s (call o now s)
    finish :
        (now : ℕ) (r : Result E A)
        → 0 < s.in_flight
        → Step s (record { breaker = settle o now r s.breaker; in_flight = s.in_flight - 1 })

  pub data Reach : System → Type 0 where
    here : Reach start
    next : {s t : System} → Reach s → Step s t → Reach t

abbrev is_half_open : State → Bool
is_half_open half_open = true
is_half_open _ = false

abbrev pub FlagIsState : Breaker → Type 0
FlagIsState b = b.half_open_in_flight ≡ is_half_open b.state

call-FlagIsState :
    {E : Type 0} (o : Options E) (now : ℕ) (b : Breaker)
    → FlagIsState b
    → FlagIsState (admit o now b).0
unfolding admit
call-FlagIsState o now b h = ground arith

settle-FlagIsState :
    {E A : Type 0} (o : Options E) (now : ℕ) (r : Result E A) (b : Breaker)
    → FlagIsState b
    → FlagIsState (settle o now r b)
unfolding settle
settle-FlagIsState o now (ok a) b h = ground arith
settle-FlagIsState o now (err e) b h = ground arith

module _ {E : Type 0} (A : Type 0) (o : Options E) where
  -- However calls overlap, the flag of the trial request is set exactly while the state is HALF_OPEN.
  pub Reach-FlagIsState : {s : System} → Reach A o s → FlagIsState s.breaker
  Reach-FlagIsState here = refl
  Reach-FlagIsState (next {s = s} r (begin now)) =
      call-FlagIsState o now s.breaker (Reach-FlagIsState r)
  Reach-FlagIsState (next {s = s} r (finish now result busy)) =
      settle-FlagIsState o now result s.breaker (Reach-FlagIsState r)

  -- So the refusal "trial request already in flight" is never given.
  pub admit-ne-trial_in_flight :
      {s : System} (now : ℕ) → Reach A o s → (admit o now s.breaker).1 ≢ some trial_in_flight
  unfolding admit
  admit-ne-trial_in_flight {s} now r h = ground (arith, Reach-FlagIsState r)

abbrev pub call_all : {E : Type 0} → Options E → List ℕ → System → System
call_all o [] s = s
call_all o (now ∷ times) s = call_all o times (call o now s)

call_all-half_open :
    {E : Type 0} (o : Options E) (times : List ℕ) (s : System)
    → s.breaker.state ≡ half_open
    → call_all o times s ≡ record s { in_flight = s.in_flight + length times }
unfolding admit
call_all-half_open o [] s h = ground arith
call_all-half_open o (now ∷ times) s h = ground (arith, call_all-half_open o times (call o now s))

-- Once an OPEN breaker's reset timeout has passed, every caller is let through, not one trial: of any
-- calls made before the first of them ends, all are in flight, and the breaker is HALF_OPEN.
pub call_all-in_flight :
    {E : Type 0} (o : Options E) (now : ℕ) (times : List ℕ) (s : System)
    → FlagIsState s.breaker
    → s.breaker.state ≡ opened
    → s.breaker.last_failure_time + o.reset_timeout_ms ≤ now
    → let s' = call_all o (now ∷ times) s in
      (s'.in_flight ≡ s.in_flight + 1 + length times) × (s'.breaker.state ≡ half_open)
unfolding admit
call_all-in_flight o now times s flag h waited =
    ground (arith, call_all-half_open o times (call o now s))
