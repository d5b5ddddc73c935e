-- ===== src/Prisma.antt =====
-- A table of Prisma, which is not part of the repository: the calls that the services make on a model
-- with an id and one more unique field (`email`, `tokenHash`), with their documented behaviour as
-- laws. `apply` says what the `data` of an update changes.
pub mod Laws
pub mod Memory
use nexus_commerce.Base.{◌≡◌, Option, none, some, String, str_eq, if◌then◌else◌}
use mathlib.Core.Option

pub record PrismaOps (A U : Type 0) (apply : U → A → A) (id unique : A → String) : Type 1 where
  pub Table : Type 0
  -- `findUnique({ where: { id } })`
  pub find : String → Table → Option A
  -- `findUnique` by the other unique field
  pub find_by : String → Table → Option A
  -- `updateMany({ where: { id }, data })`: no row of the id, no change
  pub update : String → U → Table → Table
  -- `create({ data })`, which throws on a value that a unique field has already
  pub create : A → Table → Option Table
  -- `deleteMany({ where: { id } })`
  pub delete : String → Table → Table
  pub find-id : (i : String) (t : Table) (a : A) → find i t ≡ some a → id a ≡ i
  pub find-find_by :
      (i : String) (t : Table) (a : A) → find i t ≡ some a → find_by (unique a) t ≡ some a
  pub find_by-find :
      (e : String) (t : Table) (a : A)
      → find_by e t ≡ some a
      → (unique a ≡ e) × (find (id a) t ≡ some a)
  pub find-update :
      (j : String) (u : U) (t : Table) (i : String)
      → find i (update j u t) ≡ (if str_eq j i then Option.map (apply u) (find i t) else find i t)
  pub find-delete :
      (j : String) (t : Table) (i : String)
      → find i (delete j t) ≡ (if str_eq j i then none else find i t)
  pub create_free :
      (a : A) (t : Table)
      → find (id a) t ≡ none
      → find_by (unique a) t ≡ none
      → (t' : Table) × (create a t ≡ some t')
  pub create_taken : (a b : A) (t : Table) → find_by (unique a) t ≡ some b → create a t ≡ none
  pub create_taken_id : (a b : A) (t : Table) → find (id a) t ≡ some b → create a t ≡ none
  pub find-create :
      (a : A) (t t' : Table) (i : String)
      → create a t ≡ some t'
      → find i t' ≡ (if str_eq (id a) i then some a else find i t)
