-- ===== src/Auth/Restore.antt =====
-- Restoring a deleted account: requestAccountRestore and verifyAccountRestore of services/auth-service/
-- src/modules/auth/auth.service.ts.
pub mod Laws
mod Tests
use nexus_commerce.Base.{
  ℕ, ◌-◌, ◌*◌, ◌≡◌, refl, Bool, true, false, not, Option, none, some, String, List, [], ◌∷◌, ◌++◌,
  Result, ok, err, ◌then◌, str_eq, ltb, if◌then◌else◌,
}
use nexus_commerce.Redis.{RedisOps}
use nexus_commerce.Errors.{Thrown, app, bad_request_error}
use nexus_commerce.Auth.Account.{grace_ms}
use nexus_commerce.Auth.Credential.{Credential, CredentialDb}

-- The key `auth:restore:<id>`
pub data RestoreKey : Type 0 where
  restore_key : String → RestoreKey

abbrev pub same_key : RestoreKey → RestoreKey → Bool
same_key (restore_key i) (restore_key j) = str_eq i j

-- What the code calls that is not part of the repository: `hmac` is the hex digest of a code, `bytes` the
-- bytes of a hex text, as text.
pub record RestoreDeps : Type 1 where
  pub db : CredentialDb
  pub redis : RedisOps RestoreKey String same_key
  pub hmac : String → String
  pub bytes : String → String

abbrev pub restore_ttl_seconds : ℕ
restore_ttl_seconds = 600

-- The deletion is too long ago, or has no time.
abbrev pub is_past_grace : ℕ → Option ℕ → Bool
is_past_grace now none = true
is_past_grace now (some deleted_at) = ltb grace_ms (now - deleted_at)

module _ (d : RestoreDeps) where
  open d use {db, redis, hmac, bytes}
  open redis use {Store, get, set, del}

  pub record World : Type 0 where
    pub credentials : db.Table
    pub codes : Store
    -- `email` and `otp` of the events ACCOUNT_RESTORE_REQUESTED
    pub outbox : List (String × String)

  pub request_for : ℕ → String → String → Option Credential → World → World
  request_for now email otp none w = w
  request_for now email otp (some c) w =
      if not c.is_deleted then w else if is_past_grace now c.deleted_at then w else record w {
        codes = set now (restore_key c.id) (hmac otp) restore_ttl_seconds w.codes;
        outbox = w.outbox ++ (email, otp) ∷ [];
      }

  -- `requestAccountRestore`, with the code that was generated
  pub request_account_restore : ℕ → String → String → World → World
  request_account_restore now email otp w =
      request_for now email otp (db.find_by email w.credentials) w

  -- `restoreUser` has ended: what it threw is thrown.
  abbrev pub restored : Option Thrown → World → World × Result Thrown Unit
  restored none w = (w, ok tt)
  restored (some e) w = (w, err e)

  -- The comparison, and what follows it. `failure` is what the call of the user-service threw, if it
  -- threw.
  pub compare_code :
      String → Credential → Option Thrown → Option String → World → World × Result Thrown Unit
  compare_code otp c failure none w =
      (w, err (app (bad_request_error "Invalid or expired restore request" none)))
  compare_code otp c failure (some stored) w =
      if str_eq stored ""
      then (w, err (app (bad_request_error "Invalid or expired restore request" none)))
      else if str_eq (bytes (hmac otp)) (bytes stored)
      then restored failure (record w { codes = del (restore_key c.id) w.codes })
      else (w, err (app (bad_request_error "Invalid OTP" none)))

  -- On `credential.isDeleted`
  pub verify_deleted :
      ℕ → String → Option Thrown → Credential → Bool → World → World × Result Thrown Unit
  verify_deleted now otp failure c false w =
      (w, err (app (bad_request_error "Invalid or expired restore request" none)))
  verify_deleted now otp failure c true w =
      compare_code otp c failure (get now (restore_key c.id) w.codes) w

  pub verify_for :
      ℕ → String → Option Thrown → Option Credential → World → World × Result Thrown Unit
  verify_for now otp failure none w =
      (w, err (app (bad_request_error "Invalid or expired restore request" none)))
  verify_for now otp failure (some c) w = verify_deleted now otp failure c c.is_deleted w

  -- `verifyAccountRestore`
  pub verify_account_restore :
      ℕ → String → String → Option Thrown → World → World × Result Thrown Unit
  verify_account_restore now email otp failure w =
      verify_for now otp failure (db.find_by email w.credentials) w
