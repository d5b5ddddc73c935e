-- ===== src/Prisma/Laws.antt =====
-- What follows from the laws of a table of Prisma: what the two look-ups give after a write.
use nexus_commerce.Base.{
  ◌≡◌, sym, ap, ◌∙◌, refl, Bool, true, false, Option, none, some, String, str_eq, if◌then◌else◌,
  Bool-cases, Option-cases, inl, inr, some-inj, none-some, none-ne-some,
}
use mathlib.Core.Option
use nexus_commerce.Prisma.{PrismaOps}

module _ {A U : Type 0} {apply : U → A → A} {id unique : A → String}
    (db : PrismaOps A U apply id unique)
    (apply-unique : (u : U) (a : A) → unique (apply u a) ≡ unique a) where
  open db use {
    Table, find, find_by, update, create, delete, find-id, find-find_by, find_by-find, find-update,
  }

  abbrev pub changed : String → U → A → A
  changed j u a = if str_eq j (id a) then apply u a else a

  changed_unique : (j : String) (u : U) (a : A) → unique (changed j u a) ≡ unique a
  changed_unique j u a = elim (Bool-cases (str_eq j (id a))) [
    | inl hit ↦ rw hit (apply-unique u a)
    | inr miss ↦ rw miss refl
  ]

  pub find-changed :
      (j : String) (u : U) (t : Table) (a : A)
      → find (id a) t ≡ some a
      → find (id a) (update j u t) ≡ some (changed j u a)
  find-changed j u t a here = find-update j u t (id a) ∙ (elim (Bool-cases (str_eq j (id a))) [
    | inl hit ↦ rw (hit, here) refl
    | inr miss ↦ rw (miss, here) refl
  ])

  -- The row that an update left, as it was before.
  before :
      (hit : Bool) (o : Option A) (u : U) (b : A)
      → (if hit then Option.map (apply u) o else o) ≡ some b
      → (a : A) × (o ≡ some a) × (unique a ≡ unique b)
  before true none u b h = none-some b _ h
  before true (some a) u b h =
      (a, refl, sym (apply-unique u a) ∙ ap unique (some-inj (apply u a) b h))
  before false o u b h = (b, h, refl)

  pub find_by-update :
      (j : String) (u : U) (t : Table) (e : String)
      → find_by e (update j u t) ≡ Option.map (changed j u) (find_by e t)
  find_by-update j u t e = elim (Option-cases (find_by e t)) [
    | inr (a, here) ↦
        let (same, found) = find_by-find e t a here in
        let indexed =
          find-find_by (id a) (update j u t) (changed j u a) (find-changed j u t a found) in
        ap (λ k. find_by k (update j u t)) (sym (changed_unique j u a ∙ same))
        ∙ indexed
        ∙ sym (ap (Option.map (changed j u)) here)
    | inl gone ↦ elim (Option-cases (find_by e (update j u t))) [
      | inl gone' ↦ gone' ∙ sym (ap (Option.map (changed j u)) gone)
      | inr (b, here) ↦
          let (same, found) = find_by-find e (update j u t) b here in
          let (a, found', same') =
            before (str_eq j (id b)) (find (id b) t) u b (sym (find-update j u t (id b)) ∙ found) in
          none-ne-some a _ (find_by e t) gone
            (ap (λ k. find_by k t) (sym (same' ∙ same)) ∙ find-find_by (id b) t a found')
    ]
  ]
