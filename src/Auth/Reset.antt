-- ===== src/Auth/Reset.antt =====
-- Password reset: resolveResetPage, requestPasswordReset and verifyPasswordReset of services/auth-service/
-- src/modules/auth/auth.service.ts. A transaction is one step.
pub mod Laws
pub mod Access
mod Tests
use nexus_commerce.Base.{
  ℕ, ◌+◌, ◌*◌, ◌≡◌, refl, Bool, true, false, Option, none, some, String, List, [], ◌∷◌, ◌++◌,
  Result, ok, err, ◌then◌, str_eq, ltb, if◌then◌else◌,
}
use Prim.Native.String.{◌++◌ as text_append}
use nexus_commerce.Prisma.{PrismaOps}
use nexus_commerce.Errors.{Thrown, app, record_not_found, unique_violation, bad_request_error}
use nexus_commerce.Auth.Tokens.{password_reset}
use nexus_commerce.Auth.Credential.{Credential, CredentialDb, set_password}
use nexus_commerce.Auth.Login.{AuthDeps}

-- `PasswordReset` of Prisma
pub record PasswordReset : Type 0 where
  pub id : String
  pub credential_id : String
  pub reset_token : String
  pub expires_at : ℕ
  pub used_at : Option ℕ

-- The `data` of its update
pub data ResetUpdate : Type 0 where
  mark_used : ℕ → ResetUpdate

abbrev pub apply_update : ResetUpdate → PasswordReset → PasswordReset
apply_update (mark_used now) r = record r { used_at = some now }

-- The delegate `prisma.passwordReset`
abbrev pub ResetDb : Type 1
ResetDb = PrismaOps PasswordReset ResetUpdate apply_update (λ r. r.id) (λ r. r.reset_token)

abbrev pub reset_token_ttl_ms : ℕ
reset_token_ttl_ms = 15 * 60 * 1000

-- What the code calls that is not part of the repository, with the part of the configuration that it
-- reads. `inherited` is what an object of JavaScript has under the names of `Object.prototype`, as text.
pub record ResetDeps : Type 1 where
  pub auth : AuthDeps
  pub resets : ResetDb
  pub hash_password : String → String
  pub secret : String
  pub expires_in : String
  pub customer_client_url : String
  pub seller_client_url : String
  pub admin_client_url : String
  pub inherited : String → Option String

abbrev pub page_or_error : Option String → Result Thrown String
page_or_error none = err (app (bad_request_error "Invalid or unrecognized X-Client-Type" none))
page_or_error (some page) = ok page

module _ (d : ResetDeps) where
  open d use {auth, resets, hash_password, secret, expires_in, inherited}
  open auth use {db, jwt}

  pub record World : Type 0 where
    pub credentials : db.Table
    pub reset_rows : resets.Table
    -- `email` and `resetUiLink` of the events PASSWORD_RESET_REQUESTED
    pub outbox : List (String × String)

  -- `RESET_PAGE_BY_SURFACE`
  abbrev pub reset_page : String → String
  reset_page url = text_append url "/reset-password"

  -- `resolveResetPage`
  pub resolve_reset_page : Option String → Result Thrown String
  resolve_reset_page none = ok (reset_page d.customer_client_url)
  resolve_reset_page (some client) =
      if str_eq client ""
      then ok (reset_page d.customer_client_url)
      else if str_eq client "customer-web"
      then ok (reset_page d.customer_client_url)
      else if str_eq client "seller-web"
      then ok (reset_page d.seller_client_url)
      else if str_eq client "admin-web"
      then ok (reset_page d.admin_client_url)
      else page_or_error (inherited client)

  -- The token of a reset
  abbrev pub reset_token : ℕ → Credential → String
  reset_token now c =
      jwt.sign now
        (record {
          id = c.id;
          role = c.role;
          email = c.email;
          active_role = none;
          family_id = none;
          token_type = some password_reset;
        })
        secret expires_in

  abbrev pub new_reset : ℕ → String → Credential → PasswordReset
  new_reset now id c = record {
    id = id;
    credential_id = c.id;
    reset_token = reset_token now c;
    expires_at = now + reset_token_ttl_ms;
    used_at = none;
  }

  abbrev pub emit_reset :
      String → String → Result Thrown String → World → World × Result Thrown Unit
  emit_reset email token (err e) w = (w, err e)
  emit_reset email token (ok page) w = (
    record w {
      outbox = w.outbox ++ (email, text_append page (text_append "?resetToken=" token)) ∷ [];
    },
    ok tt,
  )

  -- `requestPasswordReset` from the link on
  abbrev pub send_link :
      String → String → Option String → Option resets.Table → World → World × Result Thrown Unit
  send_link email token client none w = (w, err unique_violation)
  send_link email token client (some t) w =
      emit_reset email token (resolve_reset_page client) (record w { reset_rows = t })

  pub request_for :
      ℕ → String → String → Option String → Option Credential → World → World × Result Thrown Unit
  request_for now id email client none w = (w, ok tt)
  request_for now id email client (some c) w =
      send_link email (reset_token now c) client (resets.create (new_reset now id c) w.reset_rows) w

  -- `requestPasswordReset`, with the id of the row
  pub request_password_reset :
      ℕ → String → String → Option String → World → World × Result Thrown Unit
  request_password_reset now id email client w =
      request_for now id email client (db.find_by email w.credentials) w

  pub check_used : ℕ → PasswordReset → Option ℕ → Result Thrown PasswordReset
  check_used now r (some at) =
      err (app (bad_request_error "Reset token has already been used" none))
  check_used now r none =
      if ltb r.expires_at now
      then err (app (bad_request_error "Reset token has expired" none))
      else ok r

  -- `verifyPasswordReset` up to the transaction, on the row that it found
  pub check_reset : ℕ → Option PasswordReset → Result Thrown PasswordReset
  check_reset now none = err (app (bad_request_error "Invalid or expired reset token" none))
  check_reset now (some r) = check_used now r r.used_at

  -- The transaction, on the rows that its two updates find: with one missing it throws and changes
  -- nothing.
  pub set_new_password :
      ℕ
      → PasswordReset
      → String
      → Option Credential
      → Option PasswordReset
      → World
      → World × Result Thrown Unit
  set_new_password now r password (some c) (some row) w = (
    record w {
      credentials = db.update r.credential_id (set_password (hash_password password)) w.credentials;
      reset_rows = resets.update r.id (mark_used now) w.reset_rows;
    },
    ok tt,
  )
  set_new_password now r password _ _ w = (w, err record_not_found)

  pub finish_reset : ℕ → String → PasswordReset → World → World × Result Thrown Unit
  finish_reset now password r w =
      set_new_password now r password (db.find r.credential_id w.credentials)
        (resets.find r.id w.reset_rows) w

  -- `verifyPasswordReset` when nothing comes between its calls
  pub verify_password_reset : ℕ → String → String → World → World × Result Thrown Unit
  verify_password_reset now token password w =
      (w, check_reset now (resets.find_by token w.reset_rows))
      then (λ (r : PasswordReset) (w' : World). finish_reset now password r w')
