-- ===== src/Auth/Credential.antt =====
-- services/auth-service/src/repositories/credential.ts and the model Credential of
-- services/auth-service/prisma/schema.prisma, with the updates that the service makes of it. Fields
-- that the code neither reads nor writes are left out; a time is a number of milliseconds.
pub mod Memory
use nexus_commerce.Base.{
  ℕ, ◌+◌, ◌≡◌, refl, Bool, true, false, ◌&&◌, ◌||◌, Option, none, some, String, List, [], ◌∷◌,
  Bool-cases, inl, inr, if◌then◌else◌,
}
use nexus_commerce.Prisma.{PrismaOps}
use nexus_commerce.Auth.Tokens.{UserRole, customer, seller, admin, super_admin}

-- `Credential` of Prisma
pub record Credential : Type 0 where
  pub id : String
  pub email : String
  pub password : String
  pub role : List UserRole
  pub is_active : Bool
  pub is_blocked : Bool
  pub blocked_until : Option ℕ
  pub is_deleted : Bool
  pub deleted_at : Option ℕ
  pub last_login : Option ℕ
  pub failed_login_attempts : ℕ
  pub locked_until : Option ℕ

-- The `data` of the updates, one constructor for each
pub data CredentialUpdate : Type 0 where
  increment_failures : CredentialUpdate
  lock_until reset_attempts mark_deleted : ℕ → CredentialUpdate
  mark_restored : CredentialUpdate
  -- `updateMany` with the expected roles in its `where`
  set_role_if : List UserRole → List UserRole → CredentialUpdate
  set_password : String → CredentialUpdate

abbrev pub same_role : UserRole → UserRole → Bool
same_role customer customer = true
same_role seller seller = true
same_role admin admin = true
same_role super_admin super_admin = true
same_role _ _ = false

-- `includes` of an array of roles
abbrev pub has_role : UserRole → List UserRole → Bool
has_role r [] = false
has_role r (q ∷ qs) = same_role q r || has_role r qs

-- `equals` of an array of roles
abbrev pub same_roles : List UserRole → List UserRole → Bool
same_roles [] [] = true
same_roles (r ∷ rs) (q ∷ qs) = same_role r q && same_roles rs qs
same_roles _ _ = false

abbrev pub apply_update : CredentialUpdate → Credential → Credential
apply_update increment_failures c = record c { failed_login_attempts = c.failed_login_attempts + 1 }
apply_update (lock_until until) c = record c { locked_until = some until }
apply_update (reset_attempts now) c = record c {
  failed_login_attempts = 0;
  locked_until = none;
  last_login = some now;
}
apply_update (mark_deleted at) c = record c { is_deleted = true; deleted_at = some at }
apply_update mark_restored c = record c { is_deleted = false; deleted_at = none }
apply_update (set_role_if expected roles) c =
    if same_roles c.role expected then record c { role = roles } else c
apply_update (set_password password) c = record c { password = password }

pub apply_update-id : (u : CredentialUpdate) (c : Credential) → (apply_update u c).id ≡ c.id
apply_update-id increment_failures c = refl
apply_update-id (lock_until until) c = refl
apply_update-id (reset_attempts now) c = refl
apply_update-id (mark_deleted at) c = refl
apply_update-id mark_restored c = refl
apply_update-id (set_role_if expected roles) c = elim (Bool-cases (same_roles c.role expected)) [
  | inl e ↦ rw e refl
  | inr e ↦ rw e refl
]
apply_update-id (set_password password) c = refl

pub apply_update-email :
    (u : CredentialUpdate) (c : Credential) → (apply_update u c).email ≡ c.email
apply_update-email increment_failures c = refl
apply_update-email (lock_until until) c = refl
apply_update-email (reset_attempts now) c = refl
apply_update-email (mark_deleted at) c = refl
apply_update-email mark_restored c = refl
apply_update-email (set_role_if expected roles) c = elim (Bool-cases (same_roles c.role expected)) [
  | inl e ↦ rw e refl
  | inr e ↦ rw e refl
]
apply_update-email (set_password password) c = refl

-- The delegate `prisma.credential`
abbrev pub CredentialDb : Type 1
CredentialDb = PrismaOps Credential CredentialUpdate apply_update (λ c. c.id) (λ c. c.email)

-- The row that `create` makes of an id, an email, a password and roles, with the defaults of the schema
abbrev pub new_credential : String → String → String → List UserRole → Credential
new_credential id email password roles = record {
  id = id;
  email = email;
  password = password;
  role = roles;
  is_active = true;
  is_blocked = false;
  blocked_until = none;
  is_deleted = false;
  deleted_at = none;
  last_login = none;
  failed_login_attempts = 0;
  locked_until = none;
}
