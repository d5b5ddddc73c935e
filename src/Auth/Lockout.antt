-- ===== src/Auth/Lockout.antt =====
-- services/auth-service/src/utils/handleLogin.ts: the counter of wrong passwords and the lock.
-- `locked_text` stands for the message with the minutes put in.
pub mod Laws
use nexus_commerce.Base.{
  ℕ, ◌+◌, ◌-◌, ◌*◌, Bool, true, false, Option, none, some, String, ltb, leb, if◌then◌else◌,
}
use Prim.Native.Nat.{◌/◌}
use nexus_commerce.Errors.{AppError, Thrown, record_not_found, unauthorized_error}
use nexus_commerce.Auth.Credential.{
  Credential, CredentialDb, increment_failures, lock_until, reset_attempts,
}

abbrev pub max_login_attempts : ℕ
max_login_attempts = 5

abbrev pub lock_duration_ms : ℕ
lock_duration_ms = 15 * 60 * 1000

abbrev pub later_than : ℕ → Option ℕ → Bool
later_than now none = false
later_than now (some t) = ltb now t

abbrev pub minutes_until : ℕ → Option ℕ → ℕ
minutes_until now none = 0
minutes_until now (some t) = (t - now + 59999) / 60000

-- What `checkLockout` throws
abbrev pub check_lockout : (ℕ → String) → ℕ → Credential → Option AppError
check_lockout locked_text now c =
    if later_than now c.locked_until
    then some (unauthorized_error (locked_text (minutes_until now c.locked_until)))
    else none

module _ (db : CredentialDb) where
  open db use {Table, find, update}

  -- The second half of `handleFailedLogin`, on the row that the increment gave back
  abbrev pub lock_if_due : ℕ → Option Credential → Table → Table × Option Thrown
  lock_if_due now none t = (t, some record_not_found)
  lock_if_due now (some updated) t =
      if leb max_login_attempts updated.failed_login_attempts
      then (update updated.id (lock_until (now + lock_duration_ms)) t, none)
      else (t, none)

  -- `handleFailedLogin`
  pub handle_failed_login : ℕ → String → Table → Table × Option Thrown
  handle_failed_login now i t =
      let t' = update i increment_failures t in lock_if_due now (find i t') t'

  -- `resetLoginAttempts`
  abbrev pub reset_login_attempts : ℕ → String → Table → Table
  reset_login_attempts now i t = update i (reset_attempts now) t
