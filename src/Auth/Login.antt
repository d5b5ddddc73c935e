-- ===== src/Auth/Login.antt =====
-- Sign-in: verifyCredentials, completeLogin and issueSession of services/auth-service/src/modules/auth/
-- auth.service.ts, utils/handleLogin.ts, and the three surfaces' logins of modules/customer, seller and
-- admin. `matches` stands for bcrypt's comparison, `surface_text`,
-- `locked_text` and `blocked_text` for the messages with the surface, the minutes and the date put in.
pub mod Surfaces
pub mod Entry
pub mod Locked
pub mod Guessing
mod Tests
use nexus_commerce.Base.{
  ℕ, ◌+◌, ◌-◌, ◌*◌, ◌≡◌, Bool, true, false, not, ◌&&◌, ◌||◌, Option, none, some, String, List, [],
  ◌∷◌, ◌++◌, Result, ok, err, ◌then◌, str_eq, ltb, leb, if◌then◌else◌,
}
use Prim.Native.Nat.{◌/◌}
use nexus_commerce.Redis.{RedisOps}
use nexus_commerce.Errors.{
  AppError, Thrown, app, record_not_found, unauthorized_error, bad_request_error, forbidden_error,
}
use nexus_commerce.Auth.Tokens.{
  UserRole, customer, seller, admin, super_admin, JwtPayload, JwtConfig, JwtOps, issue_access_token,
}
use nexus_commerce.Auth.Refresh.{RefreshKey, RefreshValue, same_key, issue_refresh_token}
use nexus_commerce.Auth.Lockout.{handle_failed_login, reset_login_attempts}
use nexus_commerce.Auth.Account.{refusal, some_admin_role, admin_active_role}
use nexus_commerce.Auth.Credential.{
  Credential, CredentialDb, increment_failures, lock_until, reset_attempts, has_role,
}

-- `IRequestContext`, of which the address and the user agent only go to the audit log
pub record RequestContext : Type 0 where
  pub client_type : Option String

-- `IAuthResult`
pub record AuthResult : Type 0 where
  pub id : String
  pub email : String
  pub role : List UserRole
  pub access_token : String
  pub refresh_token : String

-- A row of the audit log: `actorId` and `action`
pub record AuditEntry : Type 0 where
  pub actor_id : String
  pub action : String

-- `context.clientType === expected`
abbrev pub is_surface : String → Option String → Bool
is_surface expected none = false
is_surface expected (some client) = str_eq client expected

abbrev pub is_present : Option String → Bool
is_present none = false
is_present (some client) = not (str_eq client "")

-- What the code calls that is not part of the repository.
pub record AuthDeps : Type 1 where
  pub db : CredentialDb
  pub redis : RedisOps RefreshKey RefreshValue same_key
  pub jwt : JwtOps
  pub config : JwtConfig
  pub hash : String → String
  pub matches : String → String → Bool
  pub surface_text : String → String
  pub locked_text : ℕ → String
  pub blocked_text : Option ℕ → String

module _ (d : AuthDeps) where
  open d use {db, redis, jwt, config, hash, matches, surface_text, locked_text, blocked_text}
  open db use {Table, find, find_by, update}
  open redis use {Store}

  pub record World : Type 0 where
    pub credentials : Table
    pub sessions : Store
    pub audit : List AuditEntry

  abbrev pub Answer : Type 0 → Type 0
  Answer A = World × Result Thrown A

  abbrev pub write_audit_log : String → String → World → World
  write_audit_log actor action w = record w {
    audit = w.audit ++ record { actor_id = actor; action = action } ∷ [];
  }

  -- `assertClientSurface`
  abbrev pub assert_client_surface : String → RequestContext → World → Answer Unit
  assert_client_surface expected context w =
      if is_surface expected context.client_type then (w, ok tt) else (
        (if is_present context.client_type
            then write_audit_log "anonymous" "CLIENT_TYPE_MISMATCH" w
            else w),
        err (app (bad_request_error (surface_text expected) (some "CLIENT_TYPE_MISMATCH"))),
      )

  abbrev pub failed : World → Table × Option Thrown → Answer Credential
  failed w (t, some e) = (record w { credentials = t }, err e)
  failed w (t, none) =
      (record w { credentials = t }, err (app (unauthorized_error "Invalid email or password")))

  -- `verifyCredentials`, on what the look-up by the email gave
  pub verify_found : ℕ → String → Option Credential → World → Answer Credential
  verify_found now password none w = (w, err (app (unauthorized_error "Invalid email or password")))
  verify_found now password (some c) w =
      if matches password c.password
      then (w, ok c)
      else failed w (handle_failed_login db now c.id w.credentials)

  -- `verifyCredentials`
  pub verify_credentials : ℕ → String → String → World → Answer Credential
  verify_credentials now email password w =
      verify_found now password (find_by email w.credentials) w

  abbrev pub payload_of : Credential → UserRole → JwtPayload
  payload_of c active = record { id = c.id; email = c.email; role = c.role; active_role = active }

  -- `issueSession`, with the family that `randomUUID` gave
  pub issue_session : ℕ → String → Credential → UserRole → World → Answer AuthResult
  issue_session now family c active w =
      let payload = payload_of c active in
      let issued = issue_refresh_token redis jwt config hash now payload c.id family w.sessions in
      (
        record w { sessions = issued.0 },
        ok (record {
          id = c.id;
          email = c.email;
          role = c.role;
          access_token = issue_access_token jwt config now payload;
          refresh_token = issued.1;
        }),
      )

  pub complete_unless :
      ℕ → String → Credential → UserRole → Option AppError → World → Answer AuthResult
  complete_unless now family c active (some e) w = (w, err (app e))
  complete_unless now family c active none w =
      issue_session now family c active
        (record w { credentials = reset_login_attempts db now c.id w.credentials })

  -- `completeLogin`
  pub complete_login : ℕ → String → Credential → UserRole → World → Answer AuthResult
  complete_login now family c active w =
      complete_unless now family c active (refusal locked_text blocked_text now c) w

  -- `customerLogin` after the password
  pub enter_customer : ℕ → String → Credential → World → Answer AuthResult
  enter_customer now family c w =
      if has_role customer c.role then complete_login now family c customer w else (
        w,
        err (
            app (
              bad_request_error
                "No customer profile exists for this account. Please create one to continue."
                (some "NO_CUSTOMER_PROFILE"))),
      )

  -- `sellerLogin` after the password
  pub enter_seller : ℕ → String → Credential → World → Answer AuthResult
  enter_seller now family c w =
      if has_role seller c.role then complete_login now family c seller w else (
        w,
        err (
            app (
              bad_request_error
                "No seller profile exists for this account. Create one to start selling."
                (some "NO_SELLER_PROFILE"))),
      )

  -- `adminLogin` after the password
  pub enter_admin : ℕ → String → Credential → World → Answer AuthResult
  enter_admin now family c w =
      if some_admin_role c.role then complete_login now family c (admin_active_role c.role) w else (
        write_audit_log c.id "ADMIN_LOGIN_DENIED_NO_ROLE" w,
        err (app (forbidden_error "Access denied")),
      )

  abbrev pub login_with :
      String
      → (ℕ → String → Credential → World → Answer AuthResult)
      → ℕ
      → String
      → String
      → String
      → RequestContext
      → World
      → Answer AuthResult
  login_with surface enter now family email password context w =
      assert_client_surface surface context w
      then (λ (u : Unit) (w' : World). verify_credentials now email password w')
      then (λ (c : Credential) (w' : World). enter now family c w')

  -- `customerLogin`
  pub customer_login : ℕ → String → String → String → RequestContext → World → Answer AuthResult
  customer_login now family email password context w =
      login_with "customer-web" enter_customer now family email password context w

  -- `sellerLogin`
  pub seller_login : ℕ → String → String → String → RequestContext → World → Answer AuthResult
  seller_login now family email password context w =
      login_with "seller-web" enter_seller now family email password context w

  -- `adminLogin`
  pub admin_login : ℕ → String → String → String → RequestContext → World → Answer AuthResult
  admin_login now family email password context w =
      login_with "admin-web" enter_admin now family email password context w
