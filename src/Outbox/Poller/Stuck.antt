-- ===== src/Outbox/Poller/Stuck.antt =====
-- Rows that no batch changes: the query of `processNextBatch` asks for PENDING rows only, so neither
-- a finished row nor one that a poller claimed and then left in PROCESSING is taken up again.
use nexus_commerce.Base.{ℕ, ◌≡◌, refl, sym, ap, ◌∙◌, true, false, some, List, arith, All, All-map}
use mathlib.Core.Option.{some-injective}
use nexus_commerce.Outbox.Row.{OutboxEventRow, is_pending, is_selected}
use nexus_commerce.Outbox.Db.{OutboxDb}
use nexus_commerce.Outbox.Poller.{Faults, PollerDeps, Clock, World}
use nexus_commerce.Outbox.Poller.Preserve.{process_batches, process_batches-Kept}

module _ (db : OutboxDb) (d : PollerDeps) where
  open db use {Table, row, find_many, find_many-sound}

  not_pending-unfound :
      (now : ℕ) (t : Table) (r : OutboxEventRow)
      → row t r.id ≡ some r
      → is_pending r.status ≡ false
      → All (λ e. ¬ (e.id ≡ r.id)) (find_many d.options now t)
  not_pending-unfound now t r at idle =
      All-map (λ e. (row t e.id ≡ some e) × (is_selected d.options now e ≡ true))
        (λ e. ¬ (e.id ≡ r.id)) (find_many d.options now t)
        (λ e (here, selected) same.
          let e_is_r : e ≡ r = some-injective e r (sym here ∙ ap (row t) same ∙ at) in
          let picked : is_selected d.options now r ≡ true =
            ap (is_selected d.options now) (sym e_is_r) ∙ selected in
          ground arith)
        (find_many-sound d.options now t)

  -- A row that is not PENDING stays exactly as it is through all the batches that follow, whatever
  -- throws in them and however late they run, and no query after them, at any time, finds it: a
  -- COMPLETED or DEAD row is final, and a row left in PROCESSING keeps its lock, however long ago the
  -- lock timed out.
  pub process_batches-not_pending :
      (runs : List (Faults × Clock)) (w : World db) (r : OutboxEventRow)
      → row w.table r.id ≡ some r
      → is_pending r.status ≡ false
      → (row (process_batches db d runs w).table r.id ≡ some r)
        × ((now : ℕ)
            → All
                (λ e. ¬ (e.id ≡ r.id))
                (find_many d.options now (process_batches db d runs w).table))
  process_batches-not_pending runs w r at idle =
      let (r', here, same) =
        process_batches-Kept db d r.id (λ q s. q ≡ r) (λ e. ⊥) (λ q. Unit {0}) (λ c q. tt)
          (λ c q s same selected. ground arith) (λ q s ms same. same)
          (λ f c e q s never claimed same. absurd never) runs w (r, at, refl) in
      let still = here ∙ ap some same in
      (still, λ now. not_pending-unfound now (process_batches db d runs w).table r still idle)
