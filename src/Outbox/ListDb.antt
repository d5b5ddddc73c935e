-- ===== src/Outbox/ListDb.antt =====
-- A table as the list of its rows, the oldest first, with distinct ids: the smallest database that
-- keeps the laws of `OutboxDb`.
use nexus_commerce.Base.{
  ℕ, ◌≤◌, ◌≡◌, refl, sym, ap, ◌∙◌, Bool, true, false, Option, none, some, List, [], ◌∷◌, String,
  All, All-map, All-map₂, length, str_eq, if◌then◌else◌, Bool-cases, inl, inr, arith, zero, suc,
}
use mathlib.Core.Option
use text.Mathlib.TextEquality.{eq_iff}
use nexus_commerce.Outbox.Row.{
  OutboxEventRow, OutboxUpdate, complete, retry, bury, apply_update, apply_claim, is_selected,
}
use nexus_commerce.Outbox.Db.{OutboxDb, contains_id, ids, HasDistinctIds, IsByAge}

abbrev pub find_row : List OutboxEventRow → String → Option OutboxEventRow
find_row [] i = none
find_row (r ∷ rs) i = if str_eq r.id i then some r else find_row rs i

-- The first `n` rows that pass a test.
abbrev pub select : (OutboxEventRow → Bool) → ℕ → List OutboxEventRow → List OutboxEventRow
select p n [] = []
select p zero (r ∷ rs) = []
select p (suc n) (r ∷ rs) = if p r then r ∷ select p n rs else select p (suc n) rs

abbrev pub change :
    (String → Bool) → (OutboxEventRow → OutboxEventRow) → List OutboxEventRow → List OutboxEventRow
change p u [] = []
change p u (r ∷ rs) = (if p r.id then u r else r) ∷ change p u rs

pub length-select :
    (p : OutboxEventRow → Bool) (n : ℕ) (rs : List OutboxEventRow) → length (select p n rs) ≤ n
length-select p n [] = omega arith
length-select p zero (r ∷ rs) = omega arith
length-select p (suc n) (r ∷ rs) = elim (Bool-cases (p r)) [
  | inl yes' ↦ rw yes' (omega (arith, length-select p n rs))
  | inr no' ↦ rw no' (length-select p (suc n) rs)
]

pub All-select :
    (P : OutboxEventRow → Type 0) (p : OutboxEventRow → Bool) (n : ℕ) (rs : List OutboxEventRow)
    → All P rs
    → All (λ r. P r × (p r ≡ true)) (select p n rs)
All-select P p n [] all = tt
All-select P p zero (r ∷ rs) all = tt
All-select P p (suc n) (r ∷ rs) all = elim (Bool-cases (p r)) [
  | inl yes' ↦ rw yes' ((all.0, yes'), All-select P p n rs all.1)
  | inr no' ↦ rw no' (All-select P p (suc n) rs all.1)
]

contains_id-select :
    (i : String) (p : OutboxEventRow → Bool) (n : ℕ) (rs : List OutboxEventRow)
    → contains_id i (ids rs) ≡ false
    → contains_id i (ids (select p n rs)) ≡ false
contains_id-select i p n [] h = refl
contains_id-select i p zero (r ∷ rs) h = refl
contains_id-select i p (suc n) (r ∷ rs) h = elim (Bool-cases (p r)) [
  | inl yes' ↦ rw yes' (ground (arith, contains_id-select i p n rs))
  | inr no' ↦ rw no' (ground (arith, contains_id-select i p (suc n) rs))
]

pub select-HasDistinctIds :
    (p : OutboxEventRow → Bool) (n : ℕ) (rs : List OutboxEventRow)
    → HasDistinctIds rs
    → HasDistinctIds (select p n rs)
select-HasDistinctIds p n [] h = tt
select-HasDistinctIds p zero (r ∷ rs) h = tt
select-HasDistinctIds p (suc n) (r ∷ rs) h = elim (Bool-cases (p r)) [
  | inl yes' ↦ rw yes' (contains_id-select r.id p n rs h.0, select-HasDistinctIds p n rs h.1)
  | inr no' ↦ rw no' (select-HasDistinctIds p (suc n) rs h.1)
]

pub select-IsByAge :
    (p : OutboxEventRow → Bool) (n : ℕ) (rs : List OutboxEventRow)
    → IsByAge rs
    → IsByAge (select p n rs)
select-IsByAge p n [] h = tt
select-IsByAge p zero (r ∷ rs) h = tt
select-IsByAge p (suc n) (r ∷ rs) h = elim (Bool-cases (p r)) [
  | inl yes' ↦ rw yes' (
    All-map (λ q. (r.created_at ≤ q.created_at) × (p q ≡ true)) (λ q. r.created_at ≤ q.created_at)
        (select p n rs) (λ q k. k.0) (All-select (λ q. r.created_at ≤ q.created_at) p n rs h.0),
    select-IsByAge p n rs h.1,
  )
  | inr no' ↦ rw no' (select-IsByAge p (suc n) rs h.1)
]

str_eq-false_sym : (a b : String) → str_eq a b ≡ false → str_eq b a ≡ false
str_eq-false_sym a b h = elim (Bool-cases (str_eq b a)) [
  | inl hit ↦
      let same : a ≡ b = sym ((eq_iff b a).0 hit) in
      let e : true ≡ false = sym ((eq_iff a b).1 same) ∙ h in
      absurd (let e' : Unit {0} ≡ ⊥ = cc in rw (← e') tt)
  | inr miss ↦ miss
]

contains_id-All :
    (i : String) (rs : List OutboxEventRow)
    → contains_id i (ids rs) ≡ false
    → All (λ q. str_eq i q.id ≡ false) rs
contains_id-All i [] h = tt
contains_id-All i (r ∷ rs) h =
    let here : str_eq r.id i ≡ false = ground arith in
    (str_eq-false_sym r.id i here, contains_id-All i rs (ground arith))

-- In a table of distinct ids, each row is the one found under its id.
pub find_row_self :
    (rs : List OutboxEventRow) → HasDistinctIds rs → All (λ r. find_row rs r.id ≡ some r) rs
find_row_self [] h = tt
find_row_self (r ∷ rs) h =
    let self : str_eq r.id r.id ≡ true = (eq_iff r.id r.id).1 refl in
    (
      rw self refl,
      All-map₂ (λ q. str_eq r.id q.id ≡ false) (λ q. find_row rs q.id ≡ some q)
          (λ q. find_row (r ∷ rs) q.id ≡ some q) rs (λ q other here. rw other here)
          (contains_id-All r.id rs h.0) (find_row_self rs h.1),
    )

module _ (p : String → Bool) (u : OutboxEventRow → OutboxEventRow)
    (u-id : (r : OutboxEventRow) → (u r).id ≡ r.id)
    (u-created_at : (r : OutboxEventRow) → (u r).created_at ≡ r.created_at) where
  pub find_row-change :
      (rs : List OutboxEventRow) (i : String)
      → find_row (change p u rs) i ≡ (if p i then Option.map u (find_row rs i) else find_row rs i)
  find_row-change [] i = ground arith
  find_row-change (r ∷ rs) i = elim (Bool-cases (str_eq r.id i)) [
    | inl hit ↦
        let same : p r.id ≡ p i = ap p ((eq_iff r.id i).0 hit) in
        elim (Bool-cases (p r.id)) [
          | inl yes' ↦
              let hit' : str_eq (u r).id i ≡ true = ap (λ j. str_eq j i) (u-id r) ∙ hit in
              rw (yes', hit', hit, (sym same ∙ yes')) refl
          | inr no' ↦ rw (no', hit, (sym same ∙ no')) refl
        ]
    | inr miss ↦ elim (Bool-cases (p r.id)) [
      | inl yes' ↦
          let miss' : str_eq (u r).id i ≡ false = ap (λ j. str_eq j i) (u-id r) ∙ miss in
          rw (yes', miss', miss) (find_row-change rs i)
      | inr no' ↦ rw (no', miss) (find_row-change rs i)
    ]
  ]

  changed-id : (r : OutboxEventRow) → (if p r.id then u r else r).id ≡ r.id
  changed-id r = elim (Bool-cases (p r.id)) [ inl h ↦ rw h (u-id r) | inr h ↦ rw h refl ]

  changed-created_at : (r : OutboxEventRow) → (if p r.id then u r else r).created_at ≡ r.created_at
  changed-created_at r = elim (Bool-cases (p r.id)) [
    | inl h ↦ rw h (u-created_at r)
    | inr h ↦ rw h refl
  ]

  ids-change : (rs : List OutboxEventRow) → ids (change p u rs) ≡ ids rs
  ids-change [] = refl
  ids-change (r ∷ rs) = rw (changed-id r, ids-change rs) refl

  pub change-HasDistinctIds :
      (rs : List OutboxEventRow) → HasDistinctIds rs → HasDistinctIds (change p u rs)
  change-HasDistinctIds [] h = tt
  change-HasDistinctIds (r ∷ rs) h =
      (rw (changed-id r, ids-change rs) h.0, change-HasDistinctIds rs h.1)

  All-change :
      (t : ℕ) (rs : List OutboxEventRow)
      → All (λ q. t ≤ q.created_at) rs
      → All (λ q. t ≤ q.created_at) (change p u rs)
  All-change t [] h = tt
  All-change t (r ∷ rs) h = (rw (changed-created_at r) h.0, All-change t rs h.1)

  pub change-IsByAge : (rs : List OutboxEventRow) → IsByAge rs → IsByAge (change p u rs)
  change-IsByAge [] h = tt
  change-IsByAge (r ∷ rs) h =
      (rw (changed-created_at r) (All-change r.created_at rs h.0), change-IsByAge rs h.1)

pub apply_update-id : (u : OutboxUpdate) (r : OutboxEventRow) → (apply_update u r).id ≡ r.id
apply_update-id (complete at) r = refl
apply_update-id (retry n e) r = refl
apply_update-id (bury n e) r = refl

pub apply_update-created_at :
    (u : OutboxUpdate) (r : OutboxEventRow) → (apply_update u r).created_at ≡ r.created_at
apply_update-created_at (complete at) r = refl
apply_update-created_at (retry n e) r = refl
apply_update-created_at (bury n e) r = refl

-- The list of the rows, with what is kept of it.
pub record Rows : Type 0 where
  pub rows : List OutboxEventRow
  pub distinct : HasDistinctIds rows
  pub by_age : IsByAge rows

abbrev change_rows :
    (p : String → Bool) (u : OutboxEventRow → OutboxEventRow)
    → ((r : OutboxEventRow) → (u r).id ≡ r.id)
    → ((r : OutboxEventRow) → (u r).created_at ≡ r.created_at)
    → Rows
    → Rows
change_rows p u u-id u-created_at t = record {
  rows = change p u t.rows;
  distinct = change-HasDistinctIds p u u-id u-created_at t.rows t.distinct;
  by_age = change-IsByAge p u u-id u-created_at t.rows t.by_age;
}

abbrev pub list_db : OutboxDb
list_db = record {
  Table = Rows;
  row = λ t i. find_row t.rows i;
  find_many = λ o now t. select (λ r. is_selected o now r) o.batch_size t.rows;
  update_many = λ is now by t.
      change_rows (λ i. contains_id i is) (λ r. apply_claim now by r) (λ r. refl) (λ r. refl) t;
  update = λ i u t.
      change_rows (λ j. str_eq i j) (λ r. apply_update u r) (λ r. apply_update-id u r)
        (λ r. apply_update-created_at u r) t;
  find_many-sound = λ o now t.
      All-select (λ r. find_row t.rows r.id ≡ some r) (λ r. is_selected o now r) o.batch_size t.rows
        (find_row_self t.rows t.distinct);
  find_many-HasDistinctIds =
      λ o now t. select-HasDistinctIds (λ r. is_selected o now r) o.batch_size t.rows t.distinct;
  find_many-IsByAge =
      λ o now t. select-IsByAge (λ r. is_selected o now r) o.batch_size t.rows t.by_age;
  length-find_many-le = λ o now t. length-select (λ r. is_selected o now r) o.batch_size t.rows;
  row-update_many = λ is now by t i.
      find_row-change (λ j. contains_id j is) (λ r. apply_claim now by r) (λ r. refl) (λ r. refl)
        t.rows i;
  row-update = λ j u t i.
      find_row-change (λ k. str_eq j k) (λ r. apply_update u r) (λ r. apply_update-id u r)
        (λ r. apply_update-created_at u r) t.rows i;
}
