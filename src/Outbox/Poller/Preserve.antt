-- ===== src/Outbox/Poller/Preserve.antt =====
-- What every batch keeps of one row and of the messages sent, whatever throws and when.
use nexus_commerce.Base.{
  ◌≡◌, sym, ap, refl, ◌∙◌, true, false, ◌||◌, Option, none, some, String, List, [], ◌∷◌, ◌++◌, All,
  All-map, str_eq, Bool-cases, Option-cases, inl, inr,
}
use mathlib.Core.Option.{some-injective}
use mathlib.Core.Path.{subst}
use text.Mathlib.TextEquality.{eq_iff}
use nexus_commerce.Outbox.Row.{
  OutboxEventRow, OutboxUpdate, apply_update, apply_claim, Message, is_selected,
}
use nexus_commerce.Outbox.Db.{OutboxDb, ids, contains_id, HasDistinctIds}
use nexus_commerce.Outbox.Poller.{
  Faults, PollerDeps, Clock, World, process_events, process_found, process_next_batch,
}
use nexus_commerce.Outbox.Poller.Effect.{effect, messages, after, row-apply_effect, thrown}
use nexus_commerce.Outbox.Poller.Outcome.{
  step, process_events-cons, find_event, find_event-All, contains_id-eq,
}

abbrev pub update_row : Option OutboxUpdate → OutboxEventRow → OutboxEventRow
update_row none r = r
update_row (some u) r = apply_update u r

after-some :
    (u : Option OutboxUpdate) (r : OutboxEventRow) → after u (some r) ≡ some (update_row u r)
after-some none r = refl
after-some (some u) r = refl

-- The batches of a poller, one after another.
abbrev pub process_batches :
    (db : OutboxDb) (d : PollerDeps) → List (Faults × Clock) → World db → World db
process_batches db d [] w = w
process_batches db d ((f, c) ∷ runs) w = process_batches db d runs (process_next_batch db d f c w)

-- `K` is what is kept of the row and the messages, `J` what an event that the query found has, `C` what
-- a row has from its claim until its event is processed.
module _ (db : OutboxDb) (d : PollerDeps) (i : String) (K : OutboxEventRow → List Message → Type 0)
    (J C : OutboxEventRow → Type 0)
    (C-claimed : (c : Clock) (r : OutboxEventRow) → C (apply_claim c.now d.locked_by r))
    (K-found : (c : Clock) (r : OutboxEventRow) (s : List Message)
      → K r s
      → is_selected d.options c.now r ≡ true
      → J r × K (apply_claim c.now d.locked_by r) s)
    (K-sent : (r : OutboxEventRow) (s ms : List Message) → K r s → K r (s ++ ms))
    (K-step : (f : Faults) (c : Clock) (e r : OutboxEventRow) (s : List Message)
      → J e
      → C r
      → K r s
      → K (update_row (effect d f c e) r) (s ++ messages d f c e)) where
  open db use {
    Table, row, find_many, find_many-sound, find_many-HasDistinctIds, update_many, row-update_many,
  }

  abbrev pub Kept : World db → Type 0
  Kept w = (r : OutboxEventRow) × (row w.table i ≡ some r) × K r w.sent

  -- The row is claimed, if it is there.
  abbrev IsClaimed : Table → Type 0
  IsClaimed t = (r : OutboxEventRow) → row t i ≡ some r → C r

  step-Kept :
      (f : Faults) (c : Clock) (e : OutboxEventRow) (w : World db)
      → (e.id ≡ i → J e)
      → (e.id ≡ i → IsClaimed w.table)
      → Kept w
      → Kept (step db d f c e w)
  step-Kept f c e w j claimed (r, at, k) =
      let lookup = row-apply_effect db d e.id (effect d f c e) w.table i in
      elim (Bool-cases (str_eq e.id i)) [
        | inl hit ↦ (
          update_row (effect d f c e) r,
          rw (lookup, hit, at) (after-some (effect d f c e) r),
          K-step f c e r w.sent (j ((eq_iff e.id i).0 hit)) (claimed ((eq_iff e.id i).0 hit) r at)
              k,
        )
        | inr miss ↦ (r, rw (lookup, miss) at, K-sent r w.sent (messages d f c e) k)
      ]

  -- An event of another row leaves the row claimed.
  step-IsClaimed :
      (f : Faults) (c : Clock) (e : OutboxEventRow) (es : List OutboxEventRow) (w : World db)
      → contains_id e.id (ids es) ≡ false
      → (contains_id i (ids (e ∷ es)) ≡ true → IsClaimed w.table)
      → contains_id i (ids es) ≡ true
      → IsClaimed (step db d f c e w).table
  step-IsClaimed f c e es w alone claimed ahead r at =
      let lookup = row-apply_effect db d e.id (effect d f c e) w.table i in
      elim (Bool-cases (str_eq e.id i)) [
        | inl hit ↦
            let same = (eq_iff e.id i).0 hit in
            let never : false ≡ true = sym alone ∙ ap (λ j. contains_id j (ids es)) same ∙ ahead in
            cc
        | inr miss ↦ claimed (rw (miss, ahead) refl) r (rw (lookup, miss) at at)
      ]

  process_events-Kept :
      (f : Faults) (c : Clock) (es : List OutboxEventRow) (w : World db)
      → HasDistinctIds es
      → (contains_id i (ids es) ≡ true → IsClaimed w.table)
      → All (λ e. e.id ≡ i → J e) es
      → Kept w
      → Kept (process_events db d f c es w).0
  unfolding process_events
  process_events-Kept f c [] w distinct claimed js kept = kept
  process_events-Kept f c (e ∷ es) w distinct claimed js kept =
      let here = λ (same : e.id ≡ i).
        claimed (ap (λ b. b || contains_id i (ids es)) ((eq_iff e.id i).1 same)) in
      let next = step-Kept f c e w js.0 here kept in
      rw (process_events-cons db d f c e es w) (elim (Option-cases (thrown d f c e)) [
        | inl calm ↦ rw calm (
            process_events-Kept f c es (step db d f c e w) distinct.1
              (step-IsClaimed f c e es w distinct.0 claimed) js.1 next)
        | inr (x, stopped) ↦ rw stopped next
      ])

  claim-Kept :
      (c : Clock) (es : List OutboxEventRow) (w : World db)
      → All (λ e. (row w.table e.id ≡ some e) × (is_selected d.options c.now e ≡ true)) es
      → Kept w
      → Kept (record w { table = update_many (ids es) c.now d.locked_by w.table })
  claim-Kept c es w sound (r, at, k) =
      let lookup = row-update_many (ids es) c.now d.locked_by w.table i in
      elim (Option-cases (find_event i es)) [
        | inl missing ↦ (r, rw (lookup, contains_id-eq i es, missing) at, k)
        | inr (e, found) ↦
            let ((here, selected), same) =
              find_event-All
                (λ e. (row w.table e.id ≡ some e) × (is_selected d.options c.now e ≡ true)) i es
                sound found in
            let r_is_e : r ≡ e = some-injective r e (sym at ∙ ap (row w.table) (sym same) ∙ here) in
            (
              apply_claim c.now d.locked_by r,
              rw (lookup, contains_id-eq i es, found, at) refl,
              (K-found c r w.sent k (rw r_is_e selected)).1,
            )
      ]

  claim-IsClaimed :
      (c : Clock) (es : List OutboxEventRow) (w : World db)
      → Kept w
      → contains_id i (ids es) ≡ true
      → IsClaimed (update_many (ids es) c.now d.locked_by w.table)
  claim-IsClaimed c es w (r, at, k) ahead q at' =
      let lookup = row-update_many (ids es) c.now d.locked_by w.table i in
      let there : row (update_many (ids es) c.now d.locked_by w.table) i
          ≡ some (apply_claim c.now d.locked_by r) =
        rw (lookup, ahead, at) refl in
      subst C (some-injective (apply_claim c.now d.locked_by r) q (sym there ∙ at')) (C-claimed c r)

  -- What an event of the row has, if the query found it.
  found-J :
      (c : Clock) (w : World db)
      → Kept w
      → All (λ e. e.id ≡ i → J e) (find_many d.options c.now w.table)
  found-J c w (r, at, k) =
      All-map (λ e. (row w.table e.id ≡ some e) × (is_selected d.options c.now e ≡ true))
        (λ e. e.id ≡ i → J e) (find_many d.options c.now w.table)
        (λ e (here, selected) same.
          let r_is_e : r ≡ e = some-injective r e (sym at ∙ ap (row w.table) (sym same) ∙ here) in
          rw (← r_is_e) (K-found c r w.sent k (rw r_is_e selected)).0)
        (find_many-sound d.options c.now w.table)

  process_found-Kept :
      (f : Faults) (c : Clock) (es : List OutboxEventRow) (w : World db)
      → All (λ e. (row w.table e.id ≡ some e) × (is_selected d.options c.now e ≡ true)) es
      → HasDistinctIds es
      → All (λ e. e.id ≡ i → J e) es
      → Kept w
      → Kept (process_found db d f c es w)
  unfolding process_found
  process_found-Kept f c [] w sound distinct js kept = kept
  process_found-Kept f c (e ∷ es) w sound distinct js kept =
      elim f.claim
        as (λ o. Kept (elim o [
          | some _ ↦ w
          | none ↦
              (process_events db d f c (e ∷ es)
                (record w { table = update_many (ids (e ∷ es)) c.now d.locked_by w.table })).0
        ])) [
          | some _ ↦ kept
          | none ↦
              process_events-Kept f c (e ∷ es)
                (record w { table = update_many (ids (e ∷ es)) c.now d.locked_by w.table }) distinct
                (claim-IsClaimed c (e ∷ es) w kept) js (claim-Kept c (e ∷ es) w sound kept)
        ]

  process_next_batch-Kept :
      (f : Faults) (c : Clock) (w : World db) → Kept w → Kept (process_next_batch db d f c w)
  unfolding process_next_batch
  process_next_batch-Kept f c w kept =
      elim f.find
        as (λ o. Kept (elim o [
          | some _ ↦ w
          | none ↦ process_found db d f c (find_many d.options c.now w.table) w
        ])) [
          | some _ ↦ kept
          | none ↦
              process_found-Kept f c (find_many d.options c.now w.table) w
                (find_many-sound d.options c.now w.table)
                (find_many-HasDistinctIds d.options c.now w.table) (found-J c w kept) kept
        ]

  pub process_batches-Kept :
      (runs : List (Faults × Clock)) (w : World db) → Kept w → Kept (process_batches db d runs w)
  process_batches-Kept [] w kept = kept
  process_batches-Kept ((f, c) ∷ runs) w kept =
      process_batches-Kept runs (process_next_batch db d f c w) (process_next_batch-Kept f c w kept)
