-- ===== src/Auth/Invites.antt =====
-- Invites of administrators: services/auth-service/src/repositories/adminInvite.ts, and createInvite,
-- validateInvite and acceptInvite of modules/admin/admin.service.ts. A transaction is one step.
pub mod SingleUse
pub mod Acceptance
mod Tests
use nexus_commerce.Base.{
  ℕ, ◌+◌, ◌*◌, ◌≡◌, refl, Bool, true, false, Option, none, some, String, List, [], ◌∷◌, ◌++◌,
  Result, ok, err, ◌then◌, str_eq, leb, if◌then◌else◌,
}
use nexus_commerce.Prisma.{PrismaOps}
use nexus_commerce.Errors.{
  Thrown, app, record_not_found, unique_violation, bad_request_error, conflict_error,
  internal_server_error,
}
use nexus_commerce.Auth.Tokens.{admin}
use nexus_commerce.Auth.Credential.{Credential, CredentialDb, new_credential}

pub data InviteStatus : Type 0 where
  pending consumed expired : InviteStatus

-- `AdminInvite` of Prisma; `createdAt` and `updatedAt`, which Prisma sets and the code does not read, are
-- left out.
pub record AdminInvite : Type 0 where
  pub id : String
  pub email : String
  pub token_hash : String
  pub status : InviteStatus
  pub invited_by_id : String
  pub expires_at : ℕ
  pub consumed_at : Option ℕ
  pub consumed_by_id : Option String

abbrev pub is_pending : InviteStatus → Bool
is_pending pending = true
is_pending _ = false

-- `status: CONSUMED, consumedById` of a `where`
abbrev pub is_consumed_by : String → InviteStatus → Option String → Bool
is_consumed_by by consumed (some c) = str_eq c by
is_consumed_by by _ _ = false

-- The calls of `updateMany`: each has the rest of its `where` here
pub data InviteUpdate : Type 0 where
  consume : ℕ → String → InviteUpdate
  reopen : String → InviteUpdate
  expire : InviteUpdate

abbrev pub apply_update : InviteUpdate → AdminInvite → AdminInvite
apply_update (consume now by) i =
    if is_pending i.status
    then record i { status = consumed; consumed_at = some now; consumed_by_id = some by }
    else i
apply_update (reopen by) i =
    if is_consumed_by by i.status i.consumed_by_id
    then record i { status = pending; consumed_at = none; consumed_by_id = none }
    else i
apply_update expire i = if is_pending i.status then record i { status = expired } else i

-- The delegate `prisma.adminInvite`
abbrev pub InviteDb : Type 1
InviteDb = PrismaOps AdminInvite InviteUpdate apply_update (λ i. i.id) (λ i. i.token_hash)

abbrev pub invite_ttl_ms : ℕ
invite_ttl_ms = 24 * 60 * 60 * 1000

-- A row of the audit log: `actorId`, `action` and `targetId`
pub record AuditEntry : Type 0 where
  pub actor_id : String
  pub action : String
  pub target_id : String

-- The payload of ADMIN_INVITE_CREATED
pub record InviteEmail : Type 0 where
  pub email : String
  pub invite_link : String
  pub expires_at : ℕ

-- `IInviteValidationResult`
pub data Validation : Type 0 where
  invalid_invite consumed_invite expired_invite : Validation
  valid_invite : String → ℕ → Validation

-- What the code calls that is not part of the repository: `hash_token` is the hex digest of SHA-256,
-- `hash_password` bcrypt's, `link` puts a token into the address of the page.
pub record InviteDeps : Type 1 where
  pub db : CredentialDb
  pub invites : InviteDb
  pub hash_token : String → String
  pub hash_password : String → String
  pub link : String → String

abbrev pub row_is_pending : Option AdminInvite → Bool
row_is_pending none = false
row_is_pending (some i) = is_pending i.status

module _ (d : InviteDeps) where
  open d use {db, invites, hash_token, hash_password, link}
  open db use {Table}

  pub record World : Type 0 where
    pub credentials : Table
    pub invite_rows : invites.Table
    pub audit : List AuditEntry
    pub outbox : List InviteEmail

  abbrev pub write_audit_log : String → String → String → World → World
  write_audit_log actor action target w = record w {
    audit = w.audit ++ record { actor_id = actor; action = action; target_id = target } ∷ [];
  }

  -- The row that `create` of the repository makes, with the defaults of the schema
  abbrev pub new_invite : ℕ → String → String → String → String → AdminInvite
  new_invite now id raw email invited_by = record {
    id = id;
    email = email;
    token_hash = hash_token raw;
    status = pending;
    invited_by_id = invited_by;
    expires_at = now + invite_ttl_ms;
    consumed_at = none;
    consumed_by_id = none;
  }

  -- The transaction of `createInvite`, on what creating the row gave
  pub invite_created :
      AdminInvite → String → Option invites.Table → World → World × Result Thrown AdminInvite
  invite_created i raw none w = (w, err unique_violation)
  invite_created i raw (some t) w = (
    write_audit_log i.invited_by_id "ADMIN_INVITE_CREATED" i.id (record w {
      invite_rows = t;
      outbox =
          w.outbox
          ++ record { email = i.email; invite_link = link raw; expires_at = i.expires_at } ∷ [];
    }),
    ok i,
  )

  pub invite_unless :
      ℕ
      → String
      → String
      → String
      → String
      → Option Credential
      → World
      → World × Result Thrown AdminInvite
  invite_unless now id raw email invited_by (some c) w = (
    w,
    err (app (conflict_error "An account with this email address already exists" (some "email"))),
  )
  invite_unless now id raw email invited_by none w =
      let i = new_invite now id raw email invited_by in
      invite_created i raw (invites.create i w.invite_rows) w

  -- `createInvite`, with the id of the row and the random token
  pub create_invite :
      ℕ → String → String → String → String → World → World × Result Thrown AdminInvite
  create_invite now id raw email invited_by w =
      invite_unless now id raw email invited_by (db.find_by email w.credentials) w

  -- `markExpired`
  abbrev pub mark_expired : AdminInvite → World → World
  mark_expired i w = record w { invite_rows = invites.update i.id expire w.invite_rows }

  pub validate_row : ℕ → AdminInvite → InviteStatus → World → World × Validation
  validate_row now i consumed w = (w, consumed_invite)
  validate_row now i expired w = (w, expired_invite)
  validate_row now i pending w =
      if leb i.expires_at now
      then (mark_expired i w, expired_invite)
      else (w, valid_invite i.email i.expires_at)

  pub validate_found : ℕ → Option AdminInvite → World → World × Validation
  validate_found now none w = (w, invalid_invite)
  validate_found now (some i) w = validate_row now i i.status w

  -- `validateInvite`
  pub validate_invite : ℕ → String → World → World × Validation
  validate_invite now raw w = validate_found now (invites.find_by (hash_token raw) w.invite_rows) w

  abbrev pub unless_account :
      AdminInvite → Option Credential → World → World × Result Thrown AdminInvite
  unless_account i (some c) w = (
    w,
    err (app (conflict_error "An account with this email address already exists" (some "email"))),
  )
  unless_account i none w = (w, ok i)

  pub check_row : ℕ → AdminInvite → InviteStatus → World → World × Result Thrown AdminInvite
  check_row now i pending w =
      if leb i.expires_at now
      then (
        mark_expired i w,
        err (app (bad_request_error "This admin invite has expired" (some "INVITE_EXPIRED"))),
      )
      else unless_account i (db.find_by i.email w.credentials) w
  check_row now i _ w = (
    w,
    err (app (bad_request_error "This admin invite is no longer valid" (some "INVITE_INVALID"))),
  )

  pub check_found : ℕ → Option AdminInvite → World → World × Result Thrown AdminInvite
  check_found now none w = (
    w,
    err (app (bad_request_error "This admin invite is no longer valid" (some "INVITE_INVALID"))),
  )
  check_found now (some i) w = check_row now i i.status w

  -- `acceptInvite` up to the transaction
  pub check_invite : ℕ → String → World → World × Result Thrown AdminInvite
  check_invite now raw w = check_found now (invites.find_by (hash_token raw) w.invite_rows) w

  -- `markConsumed` and the rest of the transaction, on the table with the new credential
  pub consume_for :
      ℕ → AdminInvite → Credential → Option Table → World → World × Result Thrown Credential
  consume_for now i c none w = (w, err unique_violation)
  consume_for now i c (some t) w =
      if row_is_pending (invites.find i.id w.invite_rows)
      then (
        write_audit_log c.id "ADMIN_INVITE_CONSUMED" i.id (record w {
          credentials = t;
          invite_rows = invites.update i.id (consume now c.id) w.invite_rows;
        }),
        ok c,
      )
      else (
        w,
        err (
            app
              (conflict_error "This admin invite has already been used" (some "INVITE_CONSUMED"))),
      )

  -- The transaction of `acceptInvite`, with the id of the new credential
  pub consume_invite : ℕ → String → String → AdminInvite → World → World × Result Thrown Credential
  consume_invite now id password i w =
      let c = new_credential id i.email (hash_password password) (admin ∷ []) in
      consume_for now i c (db.create c w.credentials) w

  -- The transaction of its `catch`, on what `delete` found
  pub undo : AdminInvite → Credential → Option Credential → World → World × Option Thrown
  undo i c none w = (w, some record_not_found)
  undo i c (some row) w = (
    write_audit_log c.id "ADMIN_INVITE_ACCEPT_ROLLED_BACK" i.id (record w {
      credentials = db.delete c.id w.credentials;
      invite_rows = invites.update i.id (reopen c.id) w.invite_rows;
    }),
    none,
  )

  pub roll_back : AdminInvite → Credential → World → World × Option Thrown
  roll_back i c w = undo i c (db.find c.id w.credentials) w

  abbrev pub setup_failed : World × Option Thrown → World × Result Thrown Credential
  setup_failed (w, none) =
      (w, err (app (internal_server_error "Admin account setup failed. Please try again.")))
  setup_failed (w, some e) = (w, err e)

  -- The end of `acceptInvite`: whether the call of the user-service went well
  pub settle : Bool → AdminInvite → Credential → World → World × Result Thrown Credential
  settle true i c w = (w, ok c)
  settle false i c w = setup_failed (roll_back i c w)

  -- `acceptInvite` when nothing comes between its calls
  pub accept_invite : ℕ → String → String → String → Bool → World → World × Result Thrown Credential
  accept_invite now raw id password profile_created w =
      check_invite now raw w then (λ (i : AdminInvite) (w' : World).
        consume_invite now id password i w'
        then (λ (c : Credential) (w'' : World). settle profile_created i c w''))
