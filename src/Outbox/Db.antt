-- ===== src/Outbox/Db.antt =====
-- The `outboxEvent` delegate of Prisma, which is not part of the repository: its calls, and what the
-- poller relies on of them. A call that throws has changed nothing.
use nexus_commerce.Base.{
  ℕ, ◌≤◌, ◌≡◌, Bool, true, false, ◌||◌, Option, some, List, [], ◌∷◌, String, All, length, str_eq,
  if◌then◌else◌,
}
use mathlib.Core.Option
use nexus_commerce.Outbox.Row.{
  OutboxEventRow, OutboxPollerOptions, OutboxUpdate, apply_update, apply_claim, is_selected,
}

abbrev pub contains_id : String → List String → Bool
contains_id i [] = false
contains_id i (j ∷ js) = str_eq j i || contains_id i js

abbrev pub ids : List OutboxEventRow → List String
ids [] = []
ids (r ∷ rs) = r.id ∷ ids rs

abbrev pub HasDistinctIds : List OutboxEventRow → Type 0
HasDistinctIds [] = Unit
HasDistinctIds (r ∷ rs) = (contains_id r.id (ids rs) ≡ false) × HasDistinctIds rs

abbrev pub IsByAge : List OutboxEventRow → Type 0
IsByAge [] = Unit
IsByAge (r ∷ rs) = All (λ q. r.created_at ≤ q.created_at) rs × IsByAge rs

pub record OutboxDb : Type 1 where
  pub Table : Type 0
  -- The row of an id: what the laws speak of.
  pub row : Table → String → Option OutboxEventRow
  -- `findMany` with the `where`, `orderBy` and `take` of `processNextBatch`
  pub find_many : OutboxPollerOptions → ℕ → Table → List OutboxEventRow
  -- `updateMany` of the claim, by the ids
  pub update_many : List String → ℕ → String → Table → Table
  -- `update` by the id
  pub update : String → OutboxUpdate → Table → Table
  pub find_many-sound :
      (o : OutboxPollerOptions) (now : ℕ) (t : Table)
      → All (λ r. (row t r.id ≡ some r) × (is_selected o now r ≡ true)) (find_many o now t)
  pub find_many-HasDistinctIds :
      (o : OutboxPollerOptions) (now : ℕ) (t : Table) → HasDistinctIds (find_many o now t)
  pub find_many-IsByAge :
      (o : OutboxPollerOptions) (now : ℕ) (t : Table) → IsByAge (find_many o now t)
  pub length-find_many-le :
      (o : OutboxPollerOptions) (now : ℕ) (t : Table) → length (find_many o now t) ≤ o.batch_size
  pub row-update_many :
      (is : List String) (now : ℕ) (by : String) (t : Table) (i : String)
      → row (update_many is now by t) i
        ≡ (if contains_id i is then Option.map (apply_claim now by) (row t i) else row t i)
  pub row-update :
      (j : String) (u : OutboxUpdate) (t : Table) (i : String)
      → row (update j u t) i
        ≡ (if str_eq j i then Option.map (apply_update u) (row t i) else row t i)
