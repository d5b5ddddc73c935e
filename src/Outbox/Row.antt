-- ===== src/Outbox/Row.antt =====
-- packages/kafka/src/types.ts and outboxWriter.ts: the rows of the OutboxEvent table and the writes
-- that the code makes to them. A time is a number of milliseconds.
use nexus_commerce.Base.{
  ℕ, ◌+◌, Bool, true, false, ◌&&◌, Option, none, some, String, ltb, str_eq, if◌then◌else◌,
}
use nexus_commerce.Events.{Json, dlq_topic, domain_events_topic, dead_letter_event}

pub data OutboxStatus : Type 0 where
  pending processing completed dead : OutboxStatus

pub record OutboxEventRow : Type 0 where
  pub id : String
  pub aggregate_id : String
  pub event_type : String
  pub payload : Json
  pub traceparent : Option String
  pub status : OutboxStatus
  pub retry_count : ℕ
  pub max_retries : ℕ
  pub last_error : Option String
  pub locked_at : Option ℕ
  pub locked_by : Option String
  pub processed_at : Option ℕ
  pub created_at : ℕ

pub record OutboxPollerOptions : Type 0 where
  pub fallback_poll_interval_ms : ℕ
  pub batch_size : ℕ
  pub base_backoff_ms : ℕ
  pub max_backoff_ms : ℕ
  pub max_retries : ℕ
  pub lock_timeout_ms : ℕ

abbrev pub default_outbox_poller_options : OutboxPollerOptions
default_outbox_poller_options = record {
  fallback_poll_interval_ms = 5000;
  batch_size = 100;
  base_backoff_ms = 1000;
  max_backoff_ms = 60000;
  max_retries = 5;
  lock_timeout_ms = 30000;
}

-- The three forms of `OutboxUpdateArgs.data`.
pub data OutboxUpdate : Type 0 where
  complete : ℕ → OutboxUpdate
  retry : ℕ → String → OutboxUpdate
  bury : ℕ → String → OutboxUpdate

abbrev pub apply_update : OutboxUpdate → OutboxEventRow → OutboxEventRow
apply_update (complete at) r = record r {
  status = completed;
  processed_at = some at;
  locked_at = none;
  locked_by = none;
}
apply_update (retry n e) r = record r {
  status = pending;
  retry_count = n;
  last_error = some e;
  locked_at = none;
  locked_by = none;
}
apply_update (bury n e) r = record r {
  status = dead;
  retry_count = n;
  last_error = some e;
  locked_at = none;
  locked_by = none;
}

-- `OutboxUpdateManyArgs.data`: the claim of a batch.
abbrev pub apply_claim : ℕ → String → OutboxEventRow → OutboxEventRow
apply_claim now by r = record r { status = processing; locked_at = some now; locked_by = some by }

abbrev pub is_pending : OutboxStatus → Bool
is_pending pending = true
is_pending _ = false

-- lockedAt is null or lies more than the lock timeout before `now`.
abbrev pub is_unlocked : OutboxPollerOptions → ℕ → Option ℕ → Bool
is_unlocked o now none = true
is_unlocked o now (some at) = ltb (at + o.lock_timeout_ms) now

-- The `where` of the query of `processNextBatch`.
abbrev pub is_selected : OutboxPollerOptions → ℕ → OutboxEventRow → Bool
is_selected o now r = is_pending r.status && is_unlocked o now r.locked_at

-- `OutboxPublishParams`
pub record Message : Type 0 where
  pub topic : String
  pub key : String
  pub value : Json
  pub traceparent : Option String

-- `OutboxEventInput`
pub record OutboxEventInput : Type 0 where
  pub event_type : String
  pub aggregate_id : String
  pub payload : Json

-- `writeOutboxEvent`: the row that it creates, with the id that `uuidv4` gave and the time that the
-- database puts in `createdAt`.
pub write_outbox_event : String → ℕ → OutboxEventInput → Option String → OutboxEventRow
write_outbox_event id now event traceparent = record {
  id = id;
  aggregate_id = event.aggregate_id;
  event_type = event.event_type;
  payload = event.payload;
  traceparent = traceparent;
  status = pending;
  retry_count = 0;
  max_retries = 5;
  last_error = none;
  locked_at = none;
  locked_by = none;
  processed_at = none;
  created_at = now;
}

-- `resolveTopic` of topicRouter.ts
pub resolve_topic : String → String
resolve_topic event_type =
    if str_eq event_type dead_letter_event then dlq_topic else domain_events_topic
