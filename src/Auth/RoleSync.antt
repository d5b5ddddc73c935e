-- ===== src/Auth/RoleSync.antt =====
-- The replica of a user's state: handleRoleSyncMessage of services/auth-service/src/events/consumers/
-- roleSyncConsumer.ts, addRoleToCredential of modules/auth/auth.service.ts and the writes of
-- repositories/credential.ts.
pub mod Laws
pub mod Roles
mod Tests
use nexus_commerce.Base.{
  ℕ, Bool, true, false, not, ◌&&◌, ◌||◌, Option, none, some, String, List, [], ◌∷◌, ◌++◌, str_eq,
  if◌then◌else◌,
}
use nexus_commerce.Auth.Tokens.{UserRole, seller}
use nexus_commerce.Auth.Credential.{
  Credential, CredentialDb, mark_deleted, mark_restored, set_role_if, same_roles, has_role,
  same_role,
}
use nexus_commerce.Auth.Account.{some_admin_role}

-- What the code calls that is not part of the repository: `JSON.parse`, the field `eventType` of what it
-- gives, and the schemas of zod, each with the payload that it finds.
pub record SyncDeps : Type 1 where
  pub db : CredentialDb
  pub Json : Type 0
  pub parse_json : String → Option Json
  pub event_type : Json → String
  pub parse_deleted : Json → Option (String × ℕ)
  pub parse_restored : Json → Option String
  pub parse_attached : Json → Option String

-- `Array.from(new Set(roles))`: the first of each
abbrev pub distinct_onto : List UserRole → List UserRole → List UserRole
distinct_onto seen [] = []
distinct_onto seen (r ∷ rs) =
    let rest = distinct_onto (r ∷ seen) rs in if has_role r seen then rest else r ∷ rest

abbrev pub distinct_roles : List UserRole → List UserRole
distinct_roles roles = distinct_onto [] roles

module _ (d : SyncDeps) where
  open d use {db, Json, parse_json, event_type, parse_deleted, parse_restored, parse_attached}
  open db use {Table, find, update}

  -- The accounts, the ids whose refresh tokens `revokeAllRefreshTokens` was called for, the audit log by
  -- its `targetId`s, and the reasons that messages went to the dead-letter queue for, without the list of
  -- issues that ends one of them.
  pub record World : Type 0 where
    pub credentials : Table
    pub revoked : List String
    pub audit : List String
    pub dead_letters : List String

  abbrev pub route_poison_message : String → World → World
  route_poison_message reason w = record w { dead_letters = w.dead_letters ++ reason ∷ [] }

  abbrev pub is_unchanged : List UserRole → Option Credential → Bool
  is_unchanged expected none = false
  is_unchanged expected (some c) = same_roles c.role expected

  -- `addRoleIfUnchanged`: the table, and whether a row was changed
  abbrev pub add_role_if_unchanged : String → UserRole → List UserRole → Table → Table × Bool
  add_role_if_unchanged i role expected t = (
    update i (set_role_if expected (distinct_roles (expected ++ role ∷ []))) t,
    is_unchanged expected (find i t),
  )

  abbrev pub audited : String → World → Table × Bool → World
  audited i w (t, true) = record w { credentials = t; audit = w.audit ++ i ∷ [] }
  audited i w (t, false) = record w { credentials = t }

  -- `addRoleToCredential` on the row that it read, which may have changed since
  pub add_role_to : String → UserRole → Option Credential → World → World
  add_role_to i role none w = w
  add_role_to i role (some c) w =
      if has_role role c.role
      then w
      else if some_admin_role c.role
      then w
      else audited i w (add_role_if_unchanged i role c.role w.credentials)

  -- `addRoleToCredential` when nothing comes between its calls
  pub add_role_to_credential : String → UserRole → World → World
  add_role_to_credential i role w = add_role_to i role (find i w.credentials) w

  -- `markDeleted` and `revokeAllRefreshTokens`
  pub on_deleted : Option (String × ℕ) → World → World
  on_deleted none w = route_poison_message "user.deleted failed schema validation" w
  on_deleted (some (i, at)) w = record w {
    credentials = update i (mark_deleted at) w.credentials;
    revoked = w.revoked ++ i ∷ [];
  }

  -- `markRestored`
  pub on_restored : Option String → World → World
  on_restored none w = route_poison_message "user.restored failed schema validation" w
  on_restored (some i) w = record w { credentials = update i mark_restored w.credentials }

  pub on_attached : Option String → World → World
  on_attached none w =
      route_poison_message "user.seller.profile.attached failed schema validation" w
  on_attached (some i) w = add_role_to_credential i seller w

  pub handle_payload : Json → World → World
  handle_payload j w =
      if str_eq (event_type j) "user.deleted"
      then on_deleted (parse_deleted j) w
      else if str_eq (event_type j) "user.restored"
      then on_restored (parse_restored j) w
      else if str_eq (event_type j) "user.seller.profile.attached"
      then on_attached (parse_attached j) w
      else w

  pub handle_parsed : Option Json → World → World
  handle_parsed none w = route_poison_message "Kafka message is not valid JSON" w
  handle_parsed (some j) w = handle_payload j w

  -- `handleRoleSyncMessage`
  pub handle_role_sync_message : Option String → World → World
  handle_role_sync_message none w = w
  handle_role_sync_message (some raw) w =
      if str_eq raw "" then w else handle_parsed (parse_json raw) w
