-- ===== src/Auth/Bootstrap/Tests.antt =====
-- A bootstrap whose first attempt fails.
use nexus_commerce.Base.{ℕ, zero, suc, ◌≡◌, refl, true, false, some, String, [], ◌∷◌, ok}
use nexus_commerce.Auth.Tokens.{customer}
use nexus_commerce.Auth.Credential.Memory.{credential_db, account, only}
use nexus_commerce.Auth.Bootstrap.{
  SuperAdminEnv, Attempt, World, bootstrap_super_admin_with_retry, attempt_from, create_super_admin,
  on_existing, on_created, set_up,
}
use nexus_commerce.Auth.Bootstrap.Laws.{IsReady, bootstrap_super_admin_with_retry-IsReady}

abbrev hash : String → String
hash password = password

abbrev env : SuperAdminEnv
env = record { email = "root@shop"; password = "pw" }

-- The user-service cannot be reached at first.
abbrev attempts : ℕ → Attempt credential_db hash
attempts zero = record {
  id = "r0";
  meanwhile = λ t. t;
  profile_created = false;
  audit_written = true;
  deleted = true;
}
attempts (suc i) = record {
  id = "r1";
  meanwhile = λ t. t;
  profile_created = true;
  audit_written = true;
  deleted = true;
}

abbrev before : World credential_db hash
before = record { credentials = only (account "c1" "a" (customer ∷ [])); audit = [] }

abbrev after : World credential_db hash
after = (bootstrap_super_admin_with_retry credential_db hash (some env) attempts before).0

bootstrap_runs :
    bootstrap_super_admin_with_retry credential_db hash (some env) attempts before ≡ (after, ok tt)
unfolding bootstrap_super_admin_with_retry attempt_from create_super_admin on_existing on_created
    set_up
bootstrap_runs = refl

bootstrap_super_admin_with_retry-IsReady_example : IsReady credential_db hash env after
bootstrap_super_admin_with_retry-IsReady_example =
    bootstrap_super_admin_with_retry-IsReady credential_db hash env attempts before after
      bootstrap_runs
