-- ===== src/Cache/Circuit/Laws.antt =====
-- When the circuit opens, what it does while open, and how it closes.
use nexus_commerce.Base.{
  ℕ, ◌+◌, ◌≡◌, ◌≤◌, ◌<◌, ap, refl, ◌∙◌, false, none, List, [], ◌∷◌, ◌++◌, Result, ok, err, ltb, leb,
  length, if◌then◌else◌, Bool-cases, inl, inr, arith, All, All-append, length-append, lt→leb, map,
  sym,
}
use mathlib.Core.List.{append-nil, append_assoc}
use nexus_commerce.Cache.Circuit.{
  closed, opened, CircuitBreakerOptions, Circuit, drop_old, prune_failure_timestamps, fail_fast,
  Answer, enter, fail, refused, settle_call, execute_call, enter_in, trip,
}

-- Calls one after another that all fail, each with the time at which it is entered and the one at which
-- it fails.
unfoldable pub fail_all :
    {E : Type 0} → CircuitBreakerOptions → E → List (ℕ × ℕ) → Circuit → Circuit
fail_all o e [] c = c
fail_all o e ((now, later) ∷ calls) c =
    fail_all o e calls (execute_call {A = Unit {0}} o now later (err e) none c).0

drop_old_none :
    (window from now : ℕ) (ts : List ℕ)
    → now ≤ from + window
    → All (λ t. from ≤ t) ts
    → drop_old window now ts ≡ ts
drop_old_none window from now [] le all = refl
drop_old_none window from now (t ∷ ts) le all =
    let kept : ltb (t + window) now ≡ false = (let h = all.0 in ground arith) in rw kept refl

-- The circuit after a call that failed while it was CLOSED.
abbrev failed : CircuitBreakerOptions → ℕ → ℕ → Circuit → Circuit
failed o now later c =
    let pruned = prune_failure_timestamps o now c in
    let ts = pruned.failure_timestamps ++ later ∷ [] in
    trip closed o later (record pruned {
      failure_timestamps = ts;
      last_failure_time = later;
      failure_count = length ts;
    })

execute_call-failed :
    {E : Type 0} (o : CircuitBreakerOptions) (e : E) (now later : ℕ) (c : Circuit)
    → c.state ≡ closed
    → (execute_call {A = Unit {0}} o now later (err e) none c).0 ≡ failed o now later c
unfolding execute_call enter fail
execute_call-failed o e now later c is_closed =
    let pruned = prune_failure_timestamps o now c in
    let ts = pruned.failure_timestamps ++ later ∷ [] in
    ap (λ st. (settle_call {A = Unit {0}} o later (err e) none (enter_in st o now pruned)).0)
      is_closed
    ∙ ap
        (λ st. trip st o later (record pruned {
          failure_timestamps = ts;
          last_failure_time = later;
          failure_count = length ts;
        }))
        is_closed

failed-state :
    (o : CircuitBreakerOptions) (now later : ℕ) (c : Circuit)
    → c.state ≡ closed
    → drop_old o.failure_window_ms now c.failure_timestamps ≡ c.failure_timestamps
    → (failed o now later c).state
      ≡ (if leb o.failure_threshold (length c.failure_timestamps + 1) then opened else closed)
failed-state o now later c is_closed kept =
    let size = length-append c.failure_timestamps (later ∷ []) in
    elim (Bool-cases (leb o.failure_threshold (length c.failure_timestamps + 1))) [
      | inl yes' ↦ rw (kept, size, yes') refl
      | inr no' ↦ rw (kept, size, no') is_closed
    ]

failed-timestamps :
    (o : CircuitBreakerOptions) (now later : ℕ) (c : Circuit)
    → drop_old o.failure_window_ms now c.failure_timestamps ≡ c.failure_timestamps
    → (failed o now later c).failure_timestamps ≡ c.failure_timestamps ++ later ∷ []
failed-timestamps o now later c kept =
    let ts = c.failure_timestamps ++ later ∷ [] in
    elim (Bool-cases (leb o.failure_threshold (length ts))) [
      | inl yes' ↦ rw (kept, yes') refl
      | inr no' ↦ rw (kept, no') refl
    ]

-- While it is CLOSED, calls one after another that all fail within one failure window, however long each
-- takes, leave it CLOSED as long as the failures on record stay below the threshold, and the call that
-- brings them to it opens it. On record is each failure with the time at which the call failed.
pub fail_all-opens :
    {E : Type 0} (o : CircuitBreakerOptions) (e : E) (from : ℕ) (calls : List (ℕ × ℕ)) (c : Circuit)
    → c.state ≡ closed
    → All (λ t. from ≤ t) c.failure_timestamps
    → length c.failure_timestamps < o.failure_threshold
    → length c.failure_timestamps + length calls ≤ o.failure_threshold
    → All (λ k. (k.0 ≤ k.1) × (from ≤ k.1) × (k.1 ≤ from + o.failure_window_ms)) calls
    → let c' = fail_all o e calls c in
      (c'.state ≡ (
        if leb o.failure_threshold (length c.failure_timestamps + length calls)
        then opened
        else closed))
      × (c'.failure_timestamps ≡ c.failure_timestamps ++ map (λ k. k.1) calls)
unfolding fail_all
fail_all-opens o e from [] c is_closed recent below bound within =
    let under =
      lt→leb o.failure_threshold (length c.failure_timestamps + 0) (omega (arith, below)) in
    (rw under is_closed, sym (append-nil c.failure_timestamps))
fail_all-opens o e from ((now, later) ∷ []) c is_closed recent below bound within =
    let (entered, after, soon) = within.0 in
    let kept =
      drop_old_none o.failure_window_ms from now c.failure_timestamps (omega (arith, entered, soon))
        recent in
    let here = execute_call-failed o e now later c is_closed in
    (
      ap (λ (d : Circuit). d.state) here ∙ failed-state o now later c is_closed kept,
      ap (λ (d : Circuit). d.failure_timestamps) here ∙ failed-timestamps o now later c kept,
    )
fail_all-opens o e from ((now, later) ∷ next ∷ calls) c is_closed recent below bound within =
    let (entered, after, soon) = within.0 in
    let ts = c.failure_timestamps in
    let rest = next ∷ calls in
    let d = failed o now later c in
    let kept =
      drop_old_none o.failure_window_ms from now ts (omega (arith, entered, soon)) recent in
    let stamps = failed-timestamps o now later c kept in
    let under : leb o.failure_threshold (length ts + 1) ≡ false =
      lt→leb o.failure_threshold (length ts + 1) (omega (arith, bound)) in
    let still : d.state ≡ closed = failed-state o now later c is_closed kept ∙ (rw under refl) in
    let total : length d.failure_timestamps ≡ length ts + 1 =
      ap length stamps ∙ length-append ts (later ∷ []) in
    let (state, record') =
      fail_all-opens o e from (next ∷ calls) d still
        (rw stamps (All-append (λ t. from ≤ t) ts (later ∷ []) recent (after, tt)))
        (rw total (omega (arith, bound))) (rw total (omega (arith, bound))) within.1 in
    let sum : length ts + 1 + length rest ≡ length ts + length ((now, later) ∷ rest) =
      omega arith in
    let here = execute_call-failed o e now later c is_closed in
    (
      ap (λ d'. (fail_all o e rest d').state) here
          ∙ state
          ∙ ap (λ n. if leb o.failure_threshold n then opened else closed)
              (ap (λ n. n + length rest) total ∙ sum),
      ap (λ d'. (fail_all o e rest d').failure_timestamps) here
          ∙ record'
          ∙ ap (λ xs. xs ++ map (λ k. k.1) rest) stamps
          ∙ append_assoc ts (later ∷ []) (map (λ k. k.1) rest),
    )

abbrev pub Call : (E A : Type 0) → Type 0
Call E A = (now : ℕ) × (later : ℕ) × Result E A

-- Calls one after another, without a fallback, and what they give.
unfoldable pub execute_calls :
    {E A : Type 0} → CircuitBreakerOptions → List (Call E A) → Circuit → Circuit × List (Answer E A)
execute_calls o [] c = (c, [])
execute_calls o ((now, later, r) ∷ calls) c =
    let (c', answer) = execute_call o now later r none c in
    let (c'', answers) = execute_calls o calls c' in (c'', answer ∷ answers)

abbrev pub all_fail_fast : {E A : Type 0} → List (Call E A) → List (Answer E A)
all_fail_fast [] = []
all_fail_fast (call ∷ calls) = refused fail_fast ∷ all_fail_fast calls

pub execute_call-refused :
    {E A : Type 0} (o : CircuitBreakerOptions) (now later : ℕ) (r : Result E A) (c : Circuit)
    → c.state ≡ opened
    → now < c.last_state_change + o.reset_timeout_ms
    → execute_call o now later r none c ≡ (prune_failure_timestamps o now c, refused fail_fast)
unfolding execute_call enter
execute_call-refused o now later (ok a) c is_open early =
    let closed_door = lt→leb (c.last_state_change + o.reset_timeout_ms) now early in
    ap
      (λ st. settle_call o later (ok a) none (enter_in st o now (prune_failure_timestamps o now c)))
      is_open
    ∙ (rw closed_door refl)
execute_call-refused o now later (err e) c is_open early =
    let closed_door = lt→leb (c.last_state_change + o.reset_timeout_ms) now early in
    ap
      (λ st.
        settle_call o later (err e) none (enter_in st o now (prune_failure_timestamps o now c)))
      is_open
    ∙ (rw closed_door refl)

-- While an OPEN circuit's reset timeout has not passed, every call fails fast, whatever the function
-- would have done, and the circuit stays OPEN since the same time.
pub execute_calls-refuse :
    {E A : Type 0} (o : CircuitBreakerOptions) (calls : List (Call E A)) (c : Circuit)
    → c.state ≡ opened
    → All (λ call. call.0 < c.last_state_change + o.reset_timeout_ms) calls
    → let (c', answers) = execute_calls o calls c in
      (answers ≡ all_fail_fast calls)
      × ((c'.state ≡ opened) × (c'.last_state_change ≡ c.last_state_change))
unfolding execute_calls
execute_calls-refuse o [] c is_open early = (refl, (is_open, refl))
execute_calls-refuse o ((now, later, r) ∷ calls) c is_open early =
    let refused_call = execute_call-refused o now later r c is_open early.0 in
    let (answers, (still, since)) =
      execute_calls-refuse o calls (prune_failure_timestamps o now c) is_open early.1 in
    rw refused_call (ap (λ as'. refused fail_fast ∷ as') answers, (still, since))
