-- ===== src/Auth/RoleSync/Tests.antt =====
-- The messages of the user-service at a concrete table.
use nexus_commerce.Base.{◌≡◌, refl, Option, some, String, [], ◌∷◌}
use nexus_commerce.Auth.Tokens.{customer, admin}
use nexus_commerce.Auth.Credential.{Credential}
use nexus_commerce.Auth.Credential.Memory.{credential_db, account, only}
use nexus_commerce.Auth.RoleSync.{SyncDeps, World, handle_role_sync_message}
use nexus_commerce.Auth.RoleSync.Laws.{row, handle_role_sync_message-twice}
use nexus_commerce.Auth.RoleSync.Roles.{KeepsRoles, handle_all, handle_all-admin_roles}

-- A text is its own event: the type, of the account c1.
abbrev deps : SyncDeps
deps = record {
  db = credential_db;
  Json = String;
  parse_json = λ raw. some raw;
  event_type = λ j. j;
  parse_deleted = λ j. some ("c1", 7);
  parse_restored = λ j. some "c1";
  parse_attached = λ j. some "c1";
}

abbrev world : Credential → World deps
world c = record { credentials = only c; revoked = []; audit = []; dead_letters = [] }

abbrev attached : Option String
attached = some "user.seller.profile.attached"

handle_role_sync_message-twice_example :
    let once = handle_role_sync_message deps attached (world (account "c1" "a" (customer ∷ []))) in
    row deps "c1" (handle_role_sync_message deps attached once) ≡ row deps "c1" once
handle_role_sync_message-twice_example =
    handle_role_sync_message-twice deps attached (world (account "c1" "a" (customer ∷ []))) "c1"

abbrev root : Credential
root = account "c1" "a" (admin ∷ [])

handle_all-admin_roles_example :
    KeepsRoles deps root
      (row deps "c1" (handle_all deps (attached ∷ some "user.deleted" ∷ []) (world root)))
handle_all-admin_roles_example =
    handle_all-admin_roles deps (attached ∷ some "user.deleted" ∷ []) "c1" root (world root) refl
      refl
