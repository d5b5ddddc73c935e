-- ===== src/Auth/Bootstrap.antt =====
-- services/auth-service/src/bootstrap/superAdmin.ts: the first administrator.
mod Laws
mod Tests
use nexus_commerce.Base.{
  ℕ, suc, Bool, Option, none, some, String, List, [], ◌∷◌, ◌++◌, Result, ok, err, if◌then◌else◌,
}
use nexus_commerce.Auth.Tokens.{super_admin}
use nexus_commerce.Auth.Credential.{Credential, CredentialDb, has_role, new_credential}

pub record SuperAdminEnv : Type 0 where
  pub email : String
  pub password : String

pub data BootstrapError : Type 0 where
  undefined not_configured other_roles unique_violation profile_failed audit_failed : BootstrapError

-- The pauses between the attempts, in milliseconds
abbrev pub delays : List ℕ
delays = 1000 ∷ 2000 ∷ 4000 ∷ 8000 ∷ 16000 ∷ []

module _ (db : CredentialDb) (hash_password : String → String) where
  open db use {Table}

  -- What one attempt meets: the id of a new account, what other instances do between the look-up and the
  -- creation, whether the user-service creates the profile, and whether the audit entry and the
  -- deletion go through.
  pub record Attempt : Type 0 where
    pub id : String
    pub meanwhile : Table → Table
    pub profile_created : Bool
    pub audit_written : Bool
    pub deleted : Bool

  -- `audit` has the ids of the entries SUPER_ADMIN_BOOTSTRAPPED.
  pub record World : Type 0 where
    pub credentials : Table
    pub audit : List String

  -- The deletion in the `catch`
  abbrev pub compensate : Attempt → World → World
  compensate a w = if a.deleted then record w { credentials = db.delete a.id w.credentials } else w

  -- `createSuperAdmin` from the profile on
  pub set_up : Attempt → World → World × Result BootstrapError Unit
  set_up a w =
      if a.profile_created
      then (if a.audit_written
          then (record w { audit = w.audit ++ a.id ∷ [] }, ok tt)
          else (compensate a w, err audit_failed))
      else (compensate a w, err profile_failed)

  -- The `catch` of the creation
  pub check_again : Option Credential → World → World × Result BootstrapError Unit
  check_again none w = (w, err unique_violation)
  check_again (some c) w =
      if has_role super_admin c.role then (w, ok tt) else (w, err unique_violation)

  pub on_created :
      SuperAdminEnv → Attempt → Option Table → World → World × Result BootstrapError Unit
  on_created env a none w = check_again (db.find_by env.email w.credentials) w
  on_created env a (some t) w = set_up a (record w { credentials = t })

  abbrev pub new_super_admin : SuperAdminEnv → Attempt → Credential
  new_super_admin env a =
      new_credential a.id env.email (hash_password env.password) (super_admin ∷ [])

  pub on_existing :
      SuperAdminEnv → Attempt → Option Credential → World → World × Result BootstrapError Unit
  on_existing env a (some c) w =
      if has_role super_admin c.role then (w, ok tt) else (w, err other_roles)
  on_existing env a none w =
      let t = a.meanwhile w.credentials in
      on_created env a (db.create (new_super_admin env a) t) (record w { credentials = t })

  -- `createSuperAdmin`
  pub create_super_admin : SuperAdminEnv → Attempt → World → World × Result BootstrapError Unit
  create_super_admin env a w = on_existing env a (db.find_by env.email w.credentials) w

  abbrev pub or_retry :
      (BootstrapError → World → World × Result BootstrapError Unit)
      → World × Result BootstrapError Unit
      → World × Result BootstrapError Unit
  or_retry retry (w, ok u) = (w, ok u)
  or_retry retry (w, err e) = retry e w

  -- The loop from attempt `i` on, with the last error
  pub attempt_from :
      SuperAdminEnv
      → (ℕ → Attempt)
      → List ℕ
      → ℕ
      → BootstrapError
      → World
      → World × Result BootstrapError Unit
  attempt_from env attempts [] i last w = (w, err last)
  attempt_from env attempts (delay ∷ rest) i last w =
      or_retry (λ (e : BootstrapError) (w' : World). attempt_from env attempts rest (suc i) e w')
        (create_super_admin env (attempts i) w)

  -- `bootstrapSuperAdminWithRetry`, on what `validateSuperAdminEnv` found
  pub bootstrap_super_admin_with_retry :
      Option SuperAdminEnv → (ℕ → Attempt) → World → World × Result BootstrapError Unit
  bootstrap_super_admin_with_retry none attempts w = (w, err not_configured)
  bootstrap_super_admin_with_retry (some env) attempts w =
      attempt_from env attempts delays 0 undefined w
