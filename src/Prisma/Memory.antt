-- ===== src/Prisma/Memory.antt =====
-- A table as its rows by id and an index of the other unique field: the smallest database that keeps
-- the laws of `PrismaOps`.
use nexus_commerce.Base.{
  ◌≡◌, sym, ap, ◌∙◌, refl, Bool, true, false, Option, none, some, String, str_eq, if◌then◌else◌,
  Bool-cases, inl, inr, str_eq→eq, str_eq_self, ◌⊎◌, some-inj, none-some, none-ne-some, put-some,
  drop-some,
}
use mathlib.Core.Option
use nexus_commerce.Prisma.{PrismaOps}

module _ {A U : Type 0} (apply : U → A → A) (id unique : A → String)
    (apply-id : (u : U) (a : A) → id (apply u a) ≡ id a)
    (apply-unique : (u : U) (a : A) → unique (apply u a) ≡ unique a) where
  pub record Rows : Type 0 where
    pub rows : String → Option A
    pub index : String → Option String
    pub row-id : (i : String) (a : A) → rows i ≡ some a → id a ≡ i
    pub row-index : (i : String) (a : A) → rows i ≡ some a → index (unique a) ≡ some i
    pub index-row : (e i : String) → index e ≡ some i → (a : A) × (rows i ≡ some a) × (unique a ≡ e)

  abbrev pub change : (String → Option A) → String → U → String → Option A
  change rows j u i = if str_eq j i then Option.map (apply u) (rows i) else rows i

  pub change-some :
      (hit : Bool) (o : Option A) (u : U) (b : A)
      → (if hit then Option.map (apply u) o else o) ≡ some b
      → (a : A) × (o ≡ some a) × (id a ≡ id b) × (unique a ≡ unique b)
  change-some true none u b h = none-some b _ h
  change-some true (some a) u b h =
      let e = some-inj (apply u a) b h in
      (a, refl, sym (apply-id u a) ∙ ap id e, sym (apply-unique u a) ∙ ap unique e)
  change-some false o u b h = (b, h, refl, refl)

  pub changed-some :
      (hit : Bool) (o : Option A) (u : U) (a : A)
      → o ≡ some a
      → (b : A) × ((if hit then Option.map (apply u) o else o) ≡ some b) × (unique b ≡ unique a)
  changed-some true o u a h = (apply u a, rw h refl, apply-unique u a)
  changed-some false o u a h = (a, h, refl)

  abbrev pub update_rows : String → U → Rows → Rows
  update_rows j u t = record {
    rows = change t.rows j u;
    index = t.index;
    row-id = λ i b h.
        let (a, here, same_id, same_unique) = change-some (str_eq j i) (t.rows i) u b h in
        sym same_id ∙ t.row-id i a here;
    row-index = λ i b h.
        let (a, here, same_id, same_unique) = change-some (str_eq j i) (t.rows i) u b h in
        ap t.index (sym same_unique) ∙ t.row-index i a here;
    index-row = λ e i h.
        let (a, here, same) = t.index-row e i h in
        let (b, here', same') = changed-some (str_eq j i) (t.rows i) u a here in
        (b, here', same' ∙ same);
  }

  -- Without the row of `j`.
  abbrev pub unless : String → Option String → Option String
  unless j none = none
  unless j (some i) = if str_eq j i then none else some i

  pub unless-some :
      (j : String) (o : Option String) (i : String)
      → unless j o ≡ some i
      → (str_eq j i ≡ false) × (o ≡ some i)
  unless-some j none i h = none-some i _ h
  unless-some j (some k) i h =
      let (miss, here) = drop-some (str_eq j k) i (some k) h in
      (ap (str_eq j) (sym (some-inj k i here)) ∙ miss, here)

  abbrev pub delete_row : String → Rows → Rows
  delete_row j t = record {
    rows = λ i. if str_eq j i then none else t.rows i;
    index = λ e. unless j (t.index e);
    row-id = λ i a h. t.row-id i a (drop-some (str_eq j i) a (t.rows i) h).1;
    row-index = λ i a h.
        let (miss, here) = drop-some (str_eq j i) a (t.rows i) h in
        ap (unless j) (t.row-index i a here) ∙ (rw miss refl);
    index-row = λ e i h.
        let (miss, here) = unless-some j (t.index e) i h in
        let (a, here', same) = t.index-row e i here in (a, rw miss here', same);
  }

  abbrev pub insert_row :
      (a : A) (t : Rows) → t.rows (id a) ≡ none → t.index (unique a) ≡ none → Rows
  insert_row a t free free_by = record {
    rows = λ i. if str_eq (id a) i then some a else t.rows i;
    index = λ e. if str_eq (unique a) e then some (id a) else t.index e;
    row-id = λ i b h. elim (put-some (str_eq (id a) i) a b (t.rows i) h) [
      | inl (hit, same) ↦ ap id (sym same) ∙ str_eq→eq (id a) i hit
      | inr (miss, here) ↦ t.row-id i b here
    ];
    row-index = λ i b h. elim (put-some (str_eq (id a) i) a b (t.rows i) h) [
      | inl (hit, same) ↦
          ap (λ e. if str_eq (unique a) e then some (id a) else t.index e) (ap unique (sym same))
          ∙ (let self = str_eq_self (unique a) in rw self (ap some (str_eq→eq (id a) i hit)))
      | inr (miss, here) ↦ elim (Bool-cases (str_eq (unique a) (unique b))) [
        | inl clash ↦
            none-ne-some i _ (t.index (unique b))
              (ap t.index (sym (str_eq→eq (unique a) (unique b) clash)) ∙ free_by)
              (t.row-index i b here)
        | inr other ↦ rw other (t.row-index i b here)
      ]
    ];
    index-row = λ e i h. elim (put-some (str_eq (unique a) e) (id a) i (t.index e) h) [
      | inl (hit, same) ↦ (
        a,
        (let self = (str_eq_self (id a)) in
            (ap (λ j. if str_eq (id a) j then some a else t.rows j) (sym same) ∙ (rw self refl))),
        str_eq→eq (unique a) e hit,
      )
      | inr (miss, here) ↦
          let (b, here', same) = t.index-row e i here in
          elim (Bool-cases (str_eq (id a) i)) [
            | inl clash ↦
                none-ne-some b _ (t.rows i) (ap t.rows (sym (str_eq→eq (id a) i clash)) ∙ free)
                  here'
            | inr other ↦ (b, rw other here', same)
          ]
    ];
  }

  abbrev pub Cases : {B : Type 0} → Option B → Type 0
  Cases {B} o = (o ≡ none) ⊎ ((b : B) × (o ≡ some b))

  abbrev pub cases_of : {B : Type 0} (o : Option B) → Cases o
  cases_of none = inl refl
  cases_of (some b) = inr (b, refl)

  abbrev pub create_with :
      (a : A) (t : Rows) → Cases (t.rows (id a)) → Cases (t.index (unique a)) → Option Rows
  create_with a t (inr taken) c = none
  create_with a t (inl free) (inr taken) = none
  create_with a t (inl free) (inl free_by) = some (insert_row a t free free_by)

  abbrev pub create_row : A → Rows → Option Rows
  create_row a t = create_with a t (cases_of (t.rows (id a))) (cases_of (t.index (unique a)))

  pub create_with-taken :
      (a : A) (t : Rows) (c : Cases (t.rows (id a))) (d : Cases (t.index (unique a))) (i : String)
      → t.index (unique a) ≡ some i
      → create_with a t c d ≡ none
  create_with-taken a t (inr taken) d i h = refl
  create_with-taken a t (inl free) (inr taken) i h = refl
  create_with-taken a t (inl free) (inl free_by) i h = none-ne-some i _ _ free_by h

  pub create_with-taken_id :
      (a b : A) (t : Rows) (c : Cases (t.rows (id a))) (d : Cases (t.index (unique a)))
      → t.rows (id a) ≡ some b
      → create_with a t c d ≡ none
  create_with-taken_id a b t (inr taken) d h = refl
  create_with-taken_id a b t (inl free) d h = none-ne-some b _ _ free h

  pub create_with-free :
      (a : A) (t : Rows) (c : Cases (t.rows (id a))) (d : Cases (t.index (unique a)))
      → t.rows (id a) ≡ none
      → t.index (unique a) ≡ none
      → (t' : Rows) × (create_with a t c d ≡ some t')
  create_with-free a t (inr (b, taken)) d h k = none-ne-some b _ _ h taken
  create_with-free a t (inl free) (inr (i, taken)) h k = none-ne-some i _ _ k taken
  create_with-free a t (inl free) (inl free_by) h k = (insert_row a t free free_by, refl)

  pub rows-create_with :
      (a : A) (t t' : Rows) (c : Cases (t.rows (id a))) (d : Cases (t.index (unique a)))
      (i : String)
      → create_with a t c d ≡ some t'
      → t'.rows i ≡ (if str_eq (id a) i then some a else t.rows i)
  rows-create_with a t t' (inr taken) d i h = none-some t' _ h
  rows-create_with a t t' (inl free) (inr taken) i h = none-some t' _ h
  rows-create_with a t t' (inl free) (inl free_by) i h =
      ap (λ r. r.rows i) (sym (some-inj (insert_row a t free free_by) t' h))

  abbrev pub find_row : String → Rows → Option A
  find_row i t = t.rows i

  abbrev pub follow : Rows → Option String → Option A
  follow t none = none
  follow t (some i) = t.rows i

  pub follow-some :
      (t : Rows) (e : String) (o : Option String) (a : A)
      → t.index e ≡ o
      → follow t o ≡ some a
      → (unique a ≡ e) × (t.rows (id a) ≡ some a)
  follow-some t e none a here h = none-some a _ h
  follow-some t e (some i) a here h =
      let (b, here', same) = t.index-row e i here in
      let equal : b ≡ a = some-inj b a (sym here' ∙ h) in
      (ap unique (sym equal) ∙ same, ap t.rows (t.row-id i a h) ∙ h)

  pub follow-none :
      (t : Rows) (e : String) (o : Option String)
      → t.index e ≡ o
      → follow t o ≡ none
      → t.index e ≡ none
  follow-none t e none here h = here
  follow-none t e (some i) here h =
      let (b, here', same) = t.index-row e i here in none-ne-some b _ _ h here'

  abbrev pub memory : PrismaOps A U apply id unique
  memory = record {
    Table = Rows;
    find = find_row;
    find_by = λ e t. follow t (t.index e);
    update = update_rows;
    create = create_row;
    delete = delete_row;
    find-id = λ i t a h. t.row-id i a h;
    find-find_by = λ i t a h. ap (follow t) (t.row-index i a h) ∙ h;
    find_by-find = λ e t a h. follow-some t e (t.index e) a refl h;
    find-update = λ j u t i. refl;
    find-delete = λ j t i. refl;
    create_free = λ a t h k.
        create_with-free a t (cases_of (t.rows (id a))) (cases_of (t.index (unique a))) h
          (follow-none t (unique a) (t.index (unique a)) refl k);
    create_taken = λ a b t h.
        let (same, here) = follow-some t (unique a) (t.index (unique a)) b refl h in
        create_with-taken a t (cases_of (t.rows (id a))) (cases_of (t.index (unique a))) (id b)
          (ap t.index (sym same) ∙ t.row-index (id b) b here);
    create_taken_id = λ a b t h.
        create_with-taken_id a b t (cases_of (t.rows (id a))) (cases_of (t.index (unique a))) h;
    find-create = λ a t t' i h.
        rows-create_with a t t' (cases_of (t.rows (id a))) (cases_of (t.index (unique a))) i h;
  }

  abbrev pub empty : Rows
  empty = record {
    rows = λ i. none;
    index = λ e. none;
    row-id = λ i a h. none-some a _ h;
    row-index = λ i a h. none-some a _ h;
    index-row = λ e i h. none-some i _ h;
  }
