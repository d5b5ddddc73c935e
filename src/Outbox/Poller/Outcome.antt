-- ===== src/Outbox/Poller/Outcome.antt =====
-- What a batch does to every row, and what it sends.
use nexus_commerce.Base.{
  ◌≡◌, sym, ap, refl, ◌∙◌, Bool, true, false, Option, none, some, String, List, [], ◌∷◌, ◌++◌, All,
  All-map, str_eq, Bool-cases, Option-cases, inl, inr, arith, if◌then◌else◌,
}
use mathlib.Core.List.{append-nil, append_assoc}
use text.Mathlib.TextEquality.{eq_iff}
use nexus_commerce.Outbox.Row.{OutboxEventRow, apply_claim, Message, is_selected}
use nexus_commerce.Outbox.Db.{OutboxDb, ids, contains_id, HasDistinctIds}
use nexus_commerce.Outbox.Poller.{
  Faults, PollerDeps, Clock, World, process_events, process_found, process_next_batch,
}
use nexus_commerce.Outbox.Poller.Effect.{
  effect, messages, thrown, after, apply_effect, process_event-eq, row-apply_effect,
}

-- The event of an id.
abbrev pub find_event : String → List OutboxEventRow → Option OutboxEventRow
find_event i [] = none
find_event i (e ∷ es) = if str_eq e.id i then some e else find_event i es

abbrev pub all_messages : PollerDeps → Faults → Clock → List OutboxEventRow → List Message
all_messages d f c [] = []
all_messages d f c (e ∷ es) = messages d f c e ++ all_messages d f c es

abbrev is_found : Option OutboxEventRow → Bool
is_found none = false
is_found (some e) = true

pub contains_id-eq :
    (i : String) (es : List OutboxEventRow) → contains_id i (ids es) ≡ is_found (find_event i es)
contains_id-eq i [] = refl
contains_id-eq i (e ∷ es) = elim (Bool-cases (str_eq e.id i)) [
  | inl hit ↦ rw hit
  | inr miss ↦ rw (miss, contains_id-eq i es)
]

-- An event that is found has the id, and what all events have.
pub find_event-All :
    (P : OutboxEventRow → Type 0) (i : String) (es : List OutboxEventRow) {e : OutboxEventRow}
    → All P es
    → find_event i es ≡ some e
    → P e × (e.id ≡ i)
find_event-All P i [] all h = absurd (let e : Unit {0} ≡ ⊥ = cc in rw (← e) tt)
find_event-All P i (e' ∷ es) {e} all h = elim (Bool-cases (str_eq e'.id i)) [
  | inl hit ↦ let same : e' ≡ e = ground arith in rw (← same) (all.0, (eq_iff e'.id i).0 hit)
  | inr miss ↦ find_event-All P i es all.1 (rw miss at h)
]

find_event-none :
    (i : String) (es : List OutboxEventRow)
    → contains_id i (ids es) ≡ false
    → find_event i es ≡ none
find_event-none i es h = ground (arith, contains_id-eq i es)

-- A row under the effect of the event that was found for it.
abbrev pub settled :
    PollerDeps
    → Faults
    → Clock
    → Option OutboxEventRow
    → Option OutboxEventRow
    → Option OutboxEventRow
settled d f c none r = r
settled d f c (some e) r = after (effect d f c e) r

module _ (db : OutboxDb) (d : PollerDeps) (f : Faults) (c : Clock) where
  open db use {
    Table, row, find_many, find_many-sound, find_many-HasDistinctIds, update_many, row-update_many,
  }

  abbrev pub step : OutboxEventRow → World db → World db
  step e w = record {
    table = apply_effect db d e.id (effect d f c e) w.table;
    sent = w.sent ++ messages d f c e;
  }

  pub process_events-cons :
      (e : OutboxEventRow) (es : List OutboxEventRow) (w : World db)
      → process_events db d f c (e ∷ es) w ≡ elim (thrown d f c e) [
        | some x ↦ (step e w, some x)
        | none ↦ process_events db d f c es (step e w)
      ]
  unfolding process_events
  process_events-cons e es w =
      ap
        (λ (p : World db × Option String). elim p.1 [
          | some x ↦ (p.0, some x)
          | none ↦ process_events db d f c es p.0
        ])
        (process_event-eq db d f c e w)

  row-step :
      (e : OutboxEventRow) (es : List OutboxEventRow) (w : World db) (i : String)
      → contains_id e.id (ids es) ≡ false
      → settled d f c (find_event i es) (row (step e w).table i)
        ≡ settled d f c (find_event i (e ∷ es)) (row w.table i)
  row-step e es w i alone = elim (Bool-cases (str_eq e.id i)) [
    | inl hit ↦
        let same : e.id ≡ i = (eq_iff e.id i).0 hit in
        let missing : find_event i es ≡ none = find_event-none i es (rw same at alone) in
        rw (missing, row-apply_effect db d e.id (effect d f c e) w.table i, hit)
    | inr miss ↦ rw (row-apply_effect db d e.id (effect d f c e) w.table i, miss)
  ]

  process_events-outcome :
      (es : List OutboxEventRow) (w : World db)
      → HasDistinctIds es
      → All (λ e. thrown d f c e ≡ none) es
      → let (w', stopped) = process_events db d f c es w in
        ((i : String) → row w'.table i ≡ settled d f c (find_event i es) (row w.table i))
        × (w'.sent ≡ w.sent ++ all_messages d f c es)
  unfolding process_events
  process_events-outcome [] w distinct calm = (λ i. refl, sym (append-nil w.sent))
  process_events-outcome (e ∷ es) w distinct calm =
      let (rows, sent) = process_events-outcome es (step e w) distinct.1 calm.1 in
      rw (process_events-cons e es w, calm.0)
        (
          λ i. rows i ∙ row-step e es w i distinct.0,
          sent ∙ append_assoc w.sent (messages d f c e) (all_messages d f c es),
        )

  -- The claim touches only what the later update of the row overwrites.
  effect-after_claim :
      (e : OutboxEventRow)
      → thrown d f c e ≡ none
      → after (effect d f c e) (some (apply_claim c.now d.locked_by e))
        ≡ after (effect d f c e) (some e)
  effect-after_claim e calm = ground arith

  -- A row that the query returned, after the claim and the step of its event; any other row.
  settled_claimed :
      (es : List OutboxEventRow) (t : Table) (i : String)
      → All (λ e. row t e.id ≡ some e) es
      → All (λ e. thrown d f c e ≡ none) es
      → settled d f c (find_event i es) (row (update_many (ids es) c.now d.locked_by t) i)
        ≡ settled d f c (find_event i es) (row t i)
  settled_claimed es t i sound calm = elim (Option-cases (find_event i es)) [
    | inl missing ↦
        rw (row-update_many (ids es) c.now d.locked_by t i, contains_id-eq i es, missing)
    | inr (e, found) ↦
        let (at_id, same) = find_event-All (λ e. row t e.id ≡ some e) i es sound found in
        let (quiet, _) = find_event-All (λ e. thrown d f c e ≡ none) i es calm found in
        let here : row t i ≡ some e = ap (row t) (sym same) ∙ at_id in
        rw (row-update_many (ids es) c.now d.locked_by t i, contains_id-eq i es, found, here)
          (effect-after_claim e quiet)
  ]

  process_found-claimed :
      (e : OutboxEventRow) (es : List OutboxEventRow) (w : World db)
      → f.claim ≡ none
      → process_found db d f c (e ∷ es) w
        ≡ (process_events db d f c
            (e ∷ es)
            (record w { table = update_many (ids (e ∷ es)) c.now d.locked_by w.table })).0
  unfolding process_found
  process_found-claimed e es w claimed =
      ap
        (λ o. elim o [
          | some _ ↦ w
          | none ↦
              (process_events db d f c (e ∷ es)
                (record w { table = update_many (ids (e ∷ es)) c.now d.locked_by w.table })).0
        ])
        claimed

  process_next_batch-queried :
      (w : World db)
      → f.find ≡ none
      → process_next_batch db d f c w ≡ process_found db d f c (find_many d.options c.now w.table) w
  unfolding process_next_batch
  process_next_batch-queried w queried =
      ap
        (λ o. elim o [
          | some _ ↦ w
          | none ↦ process_found db d f c (find_many d.options c.now w.table) w
        ])
        queried

  process_found-outcome :
      (es : List OutboxEventRow) (w : World db)
      → f.claim ≡ none
      → HasDistinctIds es
      → All (λ e. row w.table e.id ≡ some e) es
      → All (λ e. thrown d f c e ≡ none) es
      → let w' = process_found db d f c es w in
        ((i : String) → row w'.table i ≡ settled d f c (find_event i es) (row w.table i))
        × (w'.sent ≡ w.sent ++ all_messages d f c es)
  unfolding process_found
  process_found-outcome [] w claimed distinct sound calm = (λ i. refl, sym (append-nil w.sent))
  process_found-outcome (e ∷ es) w claimed distinct sound calm =
      let batch = e ∷ es in
      let start : World db = record w {
        table = update_many (ids batch) c.now d.locked_by w.table;
      } in
      let (rows, sent) = process_events-outcome batch start distinct calm in
      let run : process_found db d f c batch w ≡ (process_events db d f c batch start).0 =
        process_found-claimed e es w claimed in
      rw run (λ i. rows i ∙ settled_claimed batch w.table i sound calm, sent)

  -- When the query, the claim and the updates after a failure do not throw, a batch gives each row
  -- that it found the one update that its event calls for (COMPLETED with the time; PENDING again
  -- with one more retry and the error; DEAD once the retries of the options are used up), from the
  -- row as it stood before the claim, and leaves every other row as it was; and the broker gets, in
  -- the order of the query, the messages of the events: the event itself unless its publication
  -- threw, then a dead letter if the row was buried and the dead-letter topic took it.
  pub process_next_batch-outcome :
      (w : World db)
      → f.find ≡ none
      → f.claim ≡ none
      → All (λ e. thrown d f c e ≡ none) (find_many d.options c.now w.table)
      → let w' = process_next_batch db d f c w in
        let found = find_many d.options c.now w.table in
        ((i : String) → row w'.table i ≡ settled d f c (find_event i found) (row w.table i))
        × (w'.sent ≡ w.sent ++ all_messages d f c found)
  unfolding process_next_batch
  process_next_batch-outcome w queried claimed calm =
      let found = find_many d.options c.now w.table in
      let sound =
        All-map (λ r. (row w.table r.id ≡ some r) × (is_selected d.options c.now r ≡ true))
          (λ r. row w.table r.id ≡ some r) found (λ r h. h.0)
          (find_many-sound d.options c.now w.table) in
      let run : process_next_batch db d f c w ≡ process_found db d f c found w =
        process_next_batch-queried w queried in
      rw run (
        process_found-outcome found w claimed (find_many-HasDistinctIds d.options c.now w.table)
          sound calm)

module _ (db : OutboxDb) where
  open db use {find_many, find_many-HasDistinctIds}

  process_found-sent :
      (d : PollerDeps) (f : Faults) (c : Clock) (es : List OutboxEventRow) (w : World db)
      → f.claim ≡ none
      → HasDistinctIds es
      → All (λ e. thrown d f c e ≡ none) es
      → (process_found db d f c es w).sent ≡ w.sent ++ all_messages d f c es
  unfolding process_found
  process_found-sent d f c [] w claimed distinct calm = sym (append-nil w.sent)
  process_found-sent d f c (e ∷ es) w claimed distinct calm =
      ap (λ (v : World db). v.sent) (process_found-claimed db d f c e es w claimed)
      ∙ (process_events-outcome db d f c (e ∷ es)
          (record w { table = db.update_many (ids (e ∷ es)) c.now d.locked_by w.table }) distinct
          calm).1

  -- Two pollers whose queries both come before either claim, one of which then runs to its end
  -- before the other claims: if neither claim and no update after a failure throws, the broker gets the
  -- messages of both results in full, so that an event that both found is sent twice, although each
  -- poller claimed its rows.
  pub process_found-both :
      (d d' : PollerDeps) (f f' : Faults) (c c' : Clock) (w : World db)
      → f.claim ≡ none
      → f'.claim ≡ none
      → All (λ e. thrown d f c e ≡ none) (find_many d.options c.now w.table)
      → All (λ e. thrown d' f' c' e ≡ none) (find_many d'.options c'.now w.table)
      → let found = find_many d.options c.now w.table in
        let found' = find_many d'.options c'.now w.table in
        (process_found db d' f' c' found' (process_found db d f c found w)).sent
        ≡ (w.sent ++ all_messages d f c found) ++ all_messages d' f' c' found'
  process_found-both d d' f f' c c' w claimed claimed' calm calm' =
      let found = find_many d.options c.now w.table in
      let found' = find_many d'.options c'.now w.table in
      process_found-sent d' f' c' found' (process_found db d f c found w) claimed'
        (find_many-HasDistinctIds d'.options c'.now w.table) calm'
      ∙ ap (λ s. s ++ all_messages d' f' c' found')
          (process_found-sent d f c found w claimed
            (find_many-HasDistinctIds d.options c.now w.table) calm)
