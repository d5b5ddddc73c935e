-- ===== src/Outbox/Poller/Effect.antt =====
-- What processing one event does, apart from the state in which it is done.
use nexus_commerce.Base.{
  ◌+◌, ◌≡◌, Bool, Option, none, some, String, List, [], ◌∷◌, ◌++◌, str_eq, Option-cases, inl, inr,
  arith, if◌then◌else◌, leb,
}
use mathlib.Core.List.{append-nil, append_assoc}
use mathlib.Core.Option
use nexus_commerce.Outbox.Row.{
  OutboxEventRow, OutboxUpdate, apply_update, complete, retry, bury, Message,
}
use nexus_commerce.Outbox.Db.{OutboxDb}
use nexus_commerce.Outbox.Poller.{
  Faults, PollerDeps, Clock, World, process_event, event_message, last_words, publish_error_message,
}

-- A row under an update, if one is made.
abbrev pub after : Option OutboxUpdate → Option OutboxEventRow → Option OutboxEventRow
after none r = r
after (some u) r = Option.map (apply_update u) r

module _ (d : PollerDeps) (f : Faults) (c : Clock) (event : OutboxEventRow) where
  -- The attempt is the last that the options allow.
  abbrev pub is_exhausted : Bool
  is_exhausted = leb d.options.max_retries (event.retry_count + 1)

  -- Why the delivery failed: the publication threw, or the update to COMPLETED after it.
  abbrev pub failure : Option String
  failure = elim (f.publish event.id) [
    | some e ↦ some (publish_error_message event e)
    | none ↦ f.complete_update event.id
  ]

  -- The update of the row, if one is made.
  abbrev pub effect : Option OutboxUpdate
  effect = elim failure [
    | none ↦ some (complete (c.completed_at event.id))
    | some m ↦ elim (f.failure_update event.id) [
      | some _ ↦ none
      | none ↦
          some (
            if is_exhausted
            then bury (event.retry_count + 1) m
            else retry (event.retry_count + 1) m)
    ]
  ]

  abbrev pub dead_letters : Option String → List Message
  dead_letters none = []
  dead_letters (some m) = elim (f.failure_update event.id) [
    | some _ ↦ []
    | none ↦
        if is_exhausted
        then elim (f.dead_letter event.id) [ none ↦ last_words d c event m ∷ [] | some _ ↦ [] ]
        else []
  ]

  -- The messages that the broker takes.
  abbrev pub messages : List Message
  messages = elim (f.publish event.id) [
    | some _ ↦ dead_letters failure
    | none ↦ event_message d event ∷ dead_letters failure
  ]

  abbrev pub thrown : Option String
  thrown = elim failure [ none ↦ none | some _ ↦ f.failure_update event.id ]

module _ (db : OutboxDb) (d : PollerDeps) where
  open db use {Table, row, update, row-update}

  abbrev pub apply_effect : String → Option OutboxUpdate → Table → Table
  apply_effect i none t = t
  apply_effect i (some u) t = update i u t

  pub process_event-eq :
      (f : Faults) (c : Clock) (event : OutboxEventRow) (w : World db)
      → process_event db d f c event w ≡ (
        record {
          table = apply_effect event.id (effect d f c event) w.table;
          sent = w.sent ++ messages d f c event;
        },
        thrown d f c event,
      )
  unfolding process_event
  process_event-eq f c event w = elim (Option-cases (f.complete_update event.id)) [
    | inl marked ↦ ground (arith, append-nil w.sent)
    | inr (e, failed) ↦ ground (
      arith,
      append-nil w.sent,
      append-nil (w.sent ++ event_message d event ∷ []),
      append_assoc w.sent (event_message d event ∷ []) (last_words d c event e ∷ []),
    )
  ]

  pub row-apply_effect :
      (j : String) (u : Option OutboxUpdate) (t : Table) (i : String)
      → row (apply_effect j u t) i ≡ (if str_eq j i then after u (row t i) else row t i)
  row-apply_effect j none t i = ground arith
  row-apply_effect j (some u) t i = row-update j u t i
