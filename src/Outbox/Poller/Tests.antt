-- ===== src/Outbox/Poller/Tests.antt =====
-- The outbox at concrete rows: two events, the second of which cannot be published.
use nexus_commerce.Base.{
  ℕ, ◌≡◌, refl, true, none, some, String, [], ◌∷◌, str_eq, if◌then◌else◌, arith, All,
}
use nexus_commerce.Events.{null}
use nexus_commerce.Outbox.Row.{
  OutboxEventRow, OutboxStatus, pending, processing, default_outbox_poller_options,
}
use nexus_commerce.Outbox.ListDb.{list_db}
use nexus_commerce.Outbox.Poller.{
  Faults, PollerDeps, Clock, World, event_message, process_found, process_next_batch,
}
use nexus_commerce.Outbox.Poller.Outcome.{
  settled, find_event, all_messages, process_next_batch-outcome, process_found-both,
}
use nexus_commerce.Outbox.Poller.Preserve.{process_batches}
use nexus_commerce.Outbox.Poller.Delivered.{IsSent, is_completed, process_batches-delivered}
use nexus_commerce.Outbox.Poller.Retries.{IsWithin, process_batches-IsWithin}
use nexus_commerce.Outbox.Poller.Stuck.{process_batches-not_pending}

abbrev row_of : String → OutboxStatus → ℕ → OutboxEventRow
row_of id status at = record {
  id = id;
  aggregate_id = "user-1";
  event_type = "UserRegistered";
  payload = null;
  traceparent = none;
  status = status;
  retry_count = 0;
  max_retries = 5;
  last_error = none;
  locked_at = none;
  locked_by = none;
  processed_at = none;
  created_at = at;
}

abbrev first : OutboxEventRow
first = row_of "e1" pending 10

abbrev second : OutboxEventRow
second = row_of "e2" pending 20

abbrev stale : OutboxEventRow
stale = row_of "e0" processing 5

abbrev world : World list_db
world = record {
  table = record {
    rows = stale ∷ first ∷ second ∷ [];
    distinct = (refl, (refl, (refl, tt)));
    by_age = ((omega arith, (omega arith, tt)), ((omega arith, tt), (tt, tt)));
  };
  sent = [];
}

abbrev deps : PollerDeps
deps = record {
  service_name = "auth-service";
  options = default_outbox_poller_options;
  resolve = λ t. "domain-events";
  locked_by = "auth-service-1";
}

abbrev clock : Clock
clock = record { now = 100; completed_at = λ i. 101; now_text = λ i. "now" }

abbrev faults : Faults
faults = record {
  find = none;
  claim = none;
  publish = λ i. if str_eq i "e2" then some "broker down" else none;
  complete_update = λ i. none;
  failure_update = λ i. none;
  dead_letter = λ i. none;
}

process_next_batch-outcome_example :
    let w' = process_next_batch list_db deps faults clock world in
    let found = first ∷ second ∷ [] in
    ((i : String)
      → list_db.row w'.table i
        ≡ settled deps faults clock (find_event i found) (list_db.row world.table i))
    × (w'.sent ≡ all_messages deps faults clock found)
process_next_batch-outcome_example =
    process_next_batch-outcome list_db deps faults clock world refl refl (refl, (refl, tt))

process_found-both_example :
    let found = first ∷ second ∷ [] in
    (process_found list_db
      (record deps { locked_by = "auth-service-2" })
      faults
      clock
      found
      (process_found list_db deps faults clock found world)).sent
    ≡ event_message deps first ∷ event_message deps first ∷ []
process_found-both_example =
    process_found-both list_db deps (record deps { locked_by = "auth-service-2" }) faults faults
      clock clock world refl refl (refl, (refl, tt)) (refl, (refl, tt))

process_batches-not_pending_example :
    let w' =
      process_batches list_db deps
        ((faults, clock) ∷ (faults, record clock { now = 9999999 }) ∷ [])
        world in
    (list_db.row w'.table "e0" ≡ some stale)
    × ((now : ℕ) → All (λ e. ¬ (e.id ≡ "e0")) (list_db.find_many deps.options now w'.table))
process_batches-not_pending_example =
    process_batches-not_pending list_db deps
      ((faults, clock) ∷ (faults, record clock { now = 9999999 }) ∷ []) world stale refl refl

process_batches-delivered_example :
    let w' = process_batches list_db deps ((faults, clock) ∷ []) world in
    (r : OutboxEventRow) × (list_db.row w'.table "e1" ≡ some r)
    × (event_message deps r ≡ event_message deps first)
    × (is_completed r.status ≡ true → IsSent (event_message deps first) w'.sent)
process_batches-delivered_example =
    process_batches-delivered list_db deps ((faults, clock) ∷ []) world first refl
      (λ done. absurd (let e : Unit {0} ≡ ⊥ = cc in rw (← e) tt))

process_batches-IsWithin_example :
    let w' = process_batches list_db deps ((faults, clock) ∷ []) world in
    (r : OutboxEventRow) × (list_db.row w'.table "e2" ≡ some r) × IsWithin 5 r.status r.retry_count
process_batches-IsWithin_example =
    process_batches-IsWithin list_db deps ((faults, clock) ∷ []) world second refl (omega arith)
