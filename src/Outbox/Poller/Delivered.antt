-- ===== src/Outbox/Poller/Delivered.antt =====
-- A row is marked COMPLETED only after the broker has taken its message.
use nexus_commerce.Base.{
  ◌≡◌, refl, Bool, true, false, Option, none, some, List, ◌++◌, arith, Any, Any-append_left,
  Any-append_right, inl, inr, Option-cases, Bool-cases, ◌∙◌, ◌⊎◌,
}
use nexus_commerce.Outbox.Row.{OutboxEventRow, OutboxStatus, OutboxUpdate, Message}
use nexus_commerce.Outbox.Db.{OutboxDb}
use nexus_commerce.Outbox.Poller.{Faults, PollerDeps, Clock, World, event_message}
use nexus_commerce.Outbox.Poller.Effect.{effect, messages, is_exhausted}
use nexus_commerce.Outbox.Poller.Preserve.{update_row, process_batches, process_batches-Kept}

abbrev pub is_completed : OutboxStatus → Bool
is_completed OutboxStatus.completed = true
is_completed _ = false

abbrev pub IsSent : Message → List Message → Type 0
IsSent m s = Any (λ x. x ≡ m) s

abbrev pub IsDelivered : PollerDeps → Message → OutboxEventRow → List Message → Type 0
IsDelivered d m r s = (event_message d r ≡ m) × (is_completed r.status ≡ true → IsSent m s)

event_message-update_row :
    (d : PollerDeps) (u : Option OutboxUpdate) (r : OutboxEventRow)
    → event_message d (update_row u r) ≡ event_message d r
event_message-update_row d none r = refl
event_message-update_row d (some (OutboxUpdate.complete at)) r = refl
event_message-update_row d (some (OutboxUpdate.retry n e)) r = refl
event_message-update_row d (some (OutboxUpdate.bury n e)) r = refl

module _ (d : PollerDeps) (m : Message) where
  -- The step that completes a row is one that sends its message.
  completed_now :
      (f : Faults) (c : Clock) (e r : OutboxEventRow)
      → event_message d e ≡ m
      → is_completed (update_row (effect d f c e) r).status ≡ true
      → (is_completed r.status ≡ true) ⊎ IsSent m (messages d f c e)
  completed_now f c e r same done = elim (Option-cases (f.publish e.id)) [
    | inl taken ↦ rw (messages, taken) (inr (inl same))
    | inr (x, lost) ↦ elim (Option-cases (f.failure_update e.id)) [
      | inl updated ↦ elim (Bool-cases (is_exhausted d f c e)) [
        | inl yes' ↦ ground arith
        | inr no' ↦ ground arith
      ]
      | inr (y, failed) ↦ ground arith
    ]
  ]

  step-IsDelivered :
      (f : Faults) (c : Clock) (e r : OutboxEventRow) (s : List Message)
      → event_message d e ≡ m
      → IsDelivered d m r s
      → IsDelivered d m (update_row (effect d f c e) r) (s ++ messages d f c e)
  step-IsDelivered f c e r s same (message, delivered) = (
    event_message-update_row d (effect d f c e) r ∙ message,
    λ done. elim (completed_now f c e r same done) [
      | inl before ↦ Any-append_left (λ x. x ≡ m) s (messages d f c e) (delivered before)
      | inr now ↦ Any-append_right (λ x. x ≡ m) s (messages d f c e) now
    ],
  )

module _ (db : OutboxDb) (d : PollerDeps) where
  open db use {row}

  -- At least once: start from a row that is not COMPLETED, or whose message the broker has. After
  -- any batches, whatever throws in them, the row is still there and stands for the same message
  -- (topic, key, payload and trace), and if it is then COMPLETED, the broker has that message.
  pub process_batches-delivered :
      (runs : List (Faults × Clock)) (w : World db) (r : OutboxEventRow)
      → row w.table r.id ≡ some r
      → (is_completed r.status ≡ true → IsSent (event_message d r) w.sent)
      → let w' = process_batches db d runs w in
        (r' : OutboxEventRow) × (row w'.table r.id ≡ some r')
        × (event_message d r' ≡ event_message d r)
        × (is_completed r'.status ≡ true → IsSent (event_message d r) w'.sent)
  process_batches-delivered runs w r at start =
      let (r', here, (message, sent)) =
        process_batches-Kept db d r.id (IsDelivered d (event_message d r))
          (λ e. event_message d e ≡ event_message d r) (λ q. Unit {0}) (λ c q. tt)
          (λ c q s (same, sent) selected.
            (same, (same, λ claimed. absurd (let e : Unit {0} ≡ ⊥ = cc in rw (← e) tt))))
          (λ q s ms (same, sent).
            (same, λ done. Any-append_left (λ x. x ≡ event_message d r) s ms (sent done)))
          (λ f c e q s same claimed. step-IsDelivered d (event_message d r) f c e q s same) runs w
          (r, at, (refl, start)) in
      (r', here, message, sent)
