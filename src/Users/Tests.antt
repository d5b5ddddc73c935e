-- ===== src/Users/Tests.antt =====
-- Concrete accounts of the user-service.
use nexus_commerce.Base.{
  ◌≡◌, refl, false, none, some, String, [], ok, err, str_eq, arith, if◌then◌else◌,
}
use nexus_commerce.Prisma.Memory.{memory, empty, insert_row}
use nexus_commerce.Redis.{function_redis}
use nexus_commerce.Errors.{app, internal_server_error}
use nexus_commerce.Auth.Tokens.{customer}
use nexus_commerce.Cache.Read.{Cached, no_faults, cache_get}
use nexus_commerce.Users.{
  User, UserUpdate, soft_delete, restore, push_role, apply_update, UserDb, UserDeps, World,
  new_user, provision_account, find_user_by_id, delete_user, restore_user,
}
use nexus_commerce.Users.Provisioning.{provision_account-fails}
use nexus_commerce.Users.Restoring.{renewed, restore_user-delete_user}

apply_update-id : (u : UserUpdate) (r : User) → (apply_update u r).id ≡ r.id
apply_update-id (soft_delete now by) r = refl
apply_update-id (restore now) r = refl
apply_update-id (push_role now role) r = refl

apply_update-email : (u : UserUpdate) (r : User) → (apply_update u r).email ≡ r.email
apply_update-email (soft_delete now by) r = refl
apply_update-email (restore now) r = refl
apply_update-email (push_role now role) r = refl

abbrev user_db : UserDb
user_db = memory apply_update (λ u. u.id) (λ u. u.email) apply_update-id apply_update-email

abbrev deps : UserDeps
deps = record { db = user_db; redis = function_redis String (Cached User) str_eq }

abbrev nobody : user_db.Table
nobody = empty apply_update (λ u. u.id) (λ u. u.email) apply_update-id apply_update-email

abbrev ada : User
ada = new_user 20 "u1" "ada@example.com" customer

abbrev world : World deps
world = record {
  users = nobody;
  caches = record { l1 = []; l2 = λ k. none };
  audit = [];
  events = [];
}

abbrev with_ada : World deps
with_ada = record world {
  users =
      insert_row apply_update (λ u. u.id) (λ u. u.email) apply_update-id apply_update-email ada
        nobody refl refl;
}

provision_account-fails_example :
    let after = provision_account deps 0 20 no_faults "u1" "ada@example.com" customer none world in
    (after.1 ≡ err (app (internal_server_error "Account provisioning failed")))
    × (user_db.find "u1" after.0.users ≡ some ada)
provision_account-fails_example =
    provision_account-fails deps 0 20 "u1" "ada@example.com" customer world (refl, refl, refl, refl)
      refl refl (omega arith)

deleted : (delete_user deps 1000 no_faults false "u1" "u1" with_ada).1 ≡ ok tt
unfolding delete_user find_user_by_id cache_get
deleted = refl

restore_user-delete_user_example :
    let after =
      restore_user deps 2000 false "u1"
        (delete_user deps 1000 no_faults false "u1" "u1" with_ada).0 in
    (after.1 ≡ ok (renewed deps 2000 ada))
    × ((i : String)
        → user_db.find i after.0.users
          ≡ (if str_eq "u1" i then some (renewed deps 2000 ada) else user_db.find i with_ada.users))
restore_user-delete_user_example =
    restore_user-delete_user deps 1000 2000 no_faults false false "u1" "u1" with_ada ada refl
      (refl, refl, refl, refl) deleted (omega arith)
