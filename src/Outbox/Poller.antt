-- ===== src/Outbox/Poller.antt =====
-- packages/kafka/src/outboxPoller.ts: one batch. What the database and the broker do is the argument
-- `Faults`: for each call of a batch, the error that it throws, if it throws. `resolve` is the
-- `resolveTopic` of the dependencies.
pub mod Effect
pub mod Delivered
pub mod Outcome
pub mod Preserve
pub mod Stuck
pub mod Retries
mod Tests
use nexus_commerce.Base.{
  ℕ, ◌+◌, Bool, true, false, Option, none, some, String, List, [], ◌∷◌, ◌++◌, leb, if◌then◌else◌,
}
use Prim.Native.String.{◌++◌ as ◌+++◌}
use nexus_commerce.Outbox.Row.{
  OutboxEventRow, OutboxPollerOptions, OutboxUpdate, complete, retry, bury, Message,
}
use nexus_commerce.Outbox.Db.{OutboxDb, ids}
use nexus_commerce.Outbox.DeadLetter.{dead_letter_message}

pub record Faults : Type 0 where
  pub find : Option String
  pub claim : Option String
  -- of the publication of an event, by its id
  pub publish : String → Option String
  -- of the update to COMPLETED, by the row's id
  pub complete_update : String → Option String
  -- of the update of `handleFailure`, by the row's id
  pub failure_update : String → Option String
  -- of the publication to the dead-letter topic, by the id of the event
  pub dead_letter : String → Option String

pub record PollerDeps : Type 0 where
  pub service_name : String
  pub options : OutboxPollerOptions
  pub resolve : String → String
  -- the identity that claims a batch, with the process id in it
  pub locked_by : String

-- The clock as a batch reads it: at its start, at the completion of an event, and as text for the
-- dead-letter message of one, both by the id of the event.
pub record Clock : Type 0 where
  pub now : ℕ
  pub completed_at : String → ℕ
  pub now_text : String → String

-- `OutboxPublishError.message`
abbrev pub publish_error_message : OutboxEventRow → String → String
publish_error_message event cause =
    ◌+++◌ "Outbox publish failed for event "
      (◌+++◌ event.id (◌+++◌ " (" (◌+++◌ event.event_type (◌+++◌ "): " cause))))

abbrev pub event_message : PollerDeps → OutboxEventRow → Message
event_message d event = record {
  topic = d.resolve event.event_type;
  key = event.id;
  value = event.payload;
  traceparent = event.traceparent;
}

abbrev pub last_words : PollerDeps → Clock → OutboxEventRow → String → Message
last_words d c event message =
    dead_letter_message
      (record {
        service_name = d.service_name;
        event_id = event.id;
        event_type = some event.event_type;
        failure_stage = none;
        error_message = message;
        raw_payload = none;
        traceparent = none;
        correlation_id = none;
      })
      (c.now_text event.id)

module _ (db : OutboxDb) where
  open db use {Table, update}

  -- The table, and the messages that the broker has taken, the latest last.
  pub record World : Type 0 where
    pub table : Table
    pub sent : List Message

  -- `publish`: an error that it throws leaves nothing behind.
  abbrev pub send : Message → World → World
  send m w = record w { sent = w.sent ++ m ∷ [] }

  abbrev pub write : String → OutboxUpdate → World → World
  write i u w = record w { table = update i u w.table }

module _ (db : OutboxDb) (d : PollerDeps) where
  open db use {find_many, update_many}

  -- `publishDeadLetterEvent` logs an error of `publish` and returns.
  abbrev pub send_dead_letter : Faults → Clock → OutboxEventRow → String → World db → World db
  send_dead_letter f c event message w = elim (f.dead_letter event.id) [
    | none ↦ send db (last_words d c event message) w
    | some _ ↦ w
  ]

  -- `handleFailure`; the second part is what it throws.
  pub handle_failure :
      Faults → Clock → OutboxEventRow → String → World db → World db × Option String
  handle_failure f c event message w =
      let retry_count = event.retry_count + 1 in
      elim (f.failure_update event.id) [
        | some e ↦ (w, some e)
        | none ↦
            if leb d.options.max_retries retry_count
            then (
              send_dead_letter f c event message (write db event.id (bury retry_count message) w),
              none,
            )
            else (write db event.id (retry retry_count message) w, none)
      ]

  -- `processEvent`
  pub process_event : Faults → Clock → OutboxEventRow → World db → World db × Option String
  unfolding handle_failure
  process_event f c event w = elim (f.publish event.id) [
    | some e ↦ handle_failure f c event (publish_error_message event e) w
    | none ↦
        let sent = send db (event_message d event) w in
        elim (f.complete_update event.id) [
          | some e ↦ handle_failure f c event e sent
          | none ↦ (write db event.id (complete (c.completed_at event.id)) sent, none)
        ]
  ]

  -- The loop of `processNextBatch`: what an event throws ends it.
  pub process_events : Faults → Clock → List OutboxEventRow → World db → World db × Option String
  process_events f c [] w = (w, none)
  process_events f c (event ∷ events) w =
      let (w', thrown) = process_event f c event w in
      elim thrown [ some e ↦ (w', some e) | none ↦ process_events f c events w' ]

  -- `processNextBatch` from the claim on, for the rows that its query returned.
  pub process_found : Faults → Clock → List OutboxEventRow → World db → World db
  process_found f c [] w = w
  process_found f c (event ∷ events) w = elim f.claim [
    | some _ ↦ w
    | none ↦
        let batch = event ∷ events in
        let claimed = record w { table = update_many (ids batch) c.now d.locked_by w.table } in
        (process_events f c batch claimed).0
  ]

  -- `processNextBatch`, whose `catch` only logs.
  pub process_next_batch : Faults → Clock → World db → World db
  process_next_batch f c w = elim f.find [
    | some _ ↦ w
    | none ↦ process_found f c (find_many d.options c.now w.table) w
  ]
