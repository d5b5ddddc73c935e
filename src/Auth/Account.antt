-- ===== src/Auth/Account.antt =====
-- What the sign-ins read of an account: its roles and its state. isAdminRole and adminLogin of
-- services/auth-service/src/modules/admin/admin.service.ts, completeLogin of modules/auth/
-- auth.service.ts. `locked_text` and `blocked_text` stand for the messages with the minutes and the
-- date put in.
use nexus_commerce.Base.{
  ℕ, ◌-◌, ◌*◌, Bool, true, false, not, ◌||◌, Option, none, some, String, List, [], ◌∷◌, ltb,
  if◌then◌else◌,
}
use nexus_commerce.Errors.{AppError, unauthorized_error}
use nexus_commerce.Auth.Tokens.{UserRole, admin, super_admin}
use nexus_commerce.Auth.Credential.{Credential, has_role}
use nexus_commerce.Auth.Lockout.{check_lockout}

-- `isAdminRole`
abbrev pub is_admin_role : UserRole → Bool
is_admin_role admin = true
is_admin_role super_admin = true
is_admin_role _ = false

-- `role.some(isAdminRole)`
abbrev pub some_admin_role : List UserRole → Bool
some_admin_role [] = false
some_admin_role (r ∷ rs) = is_admin_role r || some_admin_role rs

-- `activeRole` of `adminLogin`
abbrev pub admin_active_role : List UserRole → UserRole
admin_active_role roles = if has_role super_admin roles then super_admin else admin

-- `graceMs` of `completeLogin`
abbrev pub grace_ms : ℕ
grace_ms = 30 * 24 * 60 * 60 * 1000

-- `withinGrace`
abbrev pub within_grace : ℕ → Option ℕ → Bool
within_grace now none = false
within_grace now (some deleted_at) = ltb (now - deleted_at) grace_ms

-- What `completeLogin` throws
abbrev pub refusal : (ℕ → String) → (Option ℕ → String) → ℕ → Credential → Option AppError
refusal locked_text blocked_text now c =
    if c.is_deleted
    then some (
        unauthorized_error (
          if within_grace now c.deleted_at then "ACCOUNT_DELETED" else "Invalid email or password"))
    else if c.is_blocked
    then some (unauthorized_error (blocked_text c.blocked_until))
    else if not c.is_active
    then some (unauthorized_error "Account is deactivated")
    else check_lockout locked_text now c
