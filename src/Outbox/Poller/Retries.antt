-- ===== src/Outbox/Poller/Retries.antt =====
-- The retry count of a row stays within the poller's limit, and a retry is due at once.
use nexus_commerce.Base.{
  ℕ, All, ap, ◌∙◌, ◌≡◌, ◌<◌, ◌+◌, refl, true, false, none, some, String, List, arith, Bool-cases,
  Option-cases, inl, inr,
}
use nexus_commerce.Outbox.Row.{
  OutboxEventRow, OutboxStatus, OutboxUpdate, apply_update, is_selected,
}
use nexus_commerce.Outbox.Db.{OutboxDb}
use nexus_commerce.Outbox.Poller.{Faults, PollerDeps, Clock, World, process_next_batch}
use nexus_commerce.Outbox.Poller.Outcome.{
  find_event, find_event-All, settled, process_next_batch-outcome,
}
use nexus_commerce.Outbox.Poller.Effect.{effect, is_exhausted, failure, thrown, after}
use nexus_commerce.Outbox.Poller.Preserve.{update_row, process_batches, process_batches-Kept}

-- A DEAD row has used up exactly the limit; every other row has a retry left.
abbrev pub IsWithin : ℕ → OutboxStatus → ℕ → Type 0
IsWithin limit OutboxStatus.pending n = n < limit
IsWithin limit OutboxStatus.processing n = n < limit
IsWithin limit OutboxStatus.completed n = n < limit
IsWithin limit OutboxStatus.dead n = n ≡ limit

selected-IsWithin :
    (d : PollerDeps) (now : ℕ) (r : OutboxEventRow)
    → IsWithin d.options.max_retries r.status r.retry_count
    → is_selected d.options now r ≡ true
    → r.retry_count < d.options.max_retries
selected-IsWithin d now r within selected = ground arith

step-IsWithin :
    (d : PollerDeps) (f : Faults) (c : Clock) (e r : OutboxEventRow)
    → e.retry_count < d.options.max_retries
    → r.status ≡ OutboxStatus.processing
    → IsWithin d.options.max_retries r.status r.retry_count
    → let r' = update_row (effect d f c e) r in
      IsWithin d.options.max_retries r'.status r'.retry_count
step-IsWithin d f c e r left claimed within = elim (Option-cases (failure d f c e)) [
  | inl taken ↦ rw (effect, taken) (ground arith)
  | inr (m, lost) ↦ elim (Option-cases (f.failure_update e.id)) [
    | inl updated ↦ elim (Bool-cases (is_exhausted d f c e)) [
      | inl last ↦ rw (effect, lost, updated, last) (ground arith)
      | inr more ↦ rw (effect, lost, updated, more) (ground arith)
    ]
    | inr (y, failed) ↦ rw (effect, lost, failed) within
  ]
]

module _ (db : OutboxDb) (d : PollerDeps) where
  open db use {row, find_many, find_many-sound}

  -- A row that is DEAD with its retry count at the limit of the options, or not DEAD with a count below
  -- it, is one or the other after any batches, one after another, whatever throws in them: a count that reaches the limit
  -- makes its row DEAD, never COMPLETED, and no row is DEAD before.
  pub process_batches-IsWithin :
      (runs : List (Faults × Clock)) (w : World db) (r : OutboxEventRow)
      → row w.table r.id ≡ some r
      → IsWithin d.options.max_retries r.status r.retry_count
      → (r' : OutboxEventRow) × (row (process_batches db d runs w).table r.id ≡ some r')
        × IsWithin d.options.max_retries r'.status r'.retry_count
  process_batches-IsWithin runs w r at start =
      process_batches-Kept db d r.id (λ q s. IsWithin d.options.max_retries q.status q.retry_count)
        (λ e. e.retry_count < d.options.max_retries) (λ q. q.status ≡ OutboxStatus.processing)
        (λ c q. refl)
        (λ c q s within selected.
          let left = selected-IsWithin d c.now q within selected in (left, left))
        (λ q s ms within. within) (λ f c e q s. step-IsWithin d f c e q) runs w (r, at, start)

  -- A row whose delivery failed, with retries left, is due again at every later time, however long
  -- the backoff computed for it: the next query, at any time, selects it.
  pub process_next_batch-due_at_once :
      (f : Faults) (c : Clock) (w : World db) (e : OutboxEventRow) (m : String)
      → f.find ≡ none
      → f.claim ≡ none
      → All (λ q. thrown d f c q ≡ none) (find_many d.options c.now w.table)
      → find_event e.id (find_many d.options c.now w.table) ≡ some e
      → failure d f c e ≡ some m
      → is_exhausted d f c e ≡ false
      → (r : OutboxEventRow) × (row (process_next_batch db d f c w).table e.id ≡ some r)
        × (r.retry_count ≡ e.retry_count + 1)
        × ((now : ℕ) → is_selected d.options now r ≡ true)
  process_next_batch-due_at_once f c w e m queried claimed calm found lost more =
      let (rows, _) = process_next_batch-outcome db d f c w queried claimed calm in
      let (quiet, _) =
        find_event-All (λ q. thrown d f c q ≡ none) e.id (find_many d.options c.now w.table) calm
          found in
      let ((at, _), _) =
        find_event-All (λ q. (row w.table q.id ≡ some q) × (is_selected d.options c.now q ≡ true))
          e.id (find_many d.options c.now w.table) (find_many-sound d.options c.now w.table)
          found in
      let updated : f.failure_update e.id ≡ none = rw (thrown, lost) at quiet in
      let retried : effect d f c e ≡ some (OutboxUpdate.retry (e.retry_count + 1) m) =
        rw (effect, lost, updated, more) refl in
      let here : row (process_next_batch db d f c w).table e.id ≡ settled d f c (some e) (some e) =
        rw (found, at) at (rows e.id) in
      (
        apply_update (OutboxUpdate.retry (e.retry_count + 1) m) e,
        here ∙ ap (λ u. after u (some e)) retried,
        refl,
        λ now. refl,
      )
