-- ===== src/Users.antt =====
-- Accounts of the user-service: services/user-service/src/modules/user/user.repository.ts, user.service.ts
-- and provisionAccount.ts. The profile of a role is written by an argument that may throw. What a
-- transaction writes it writes in one step or not at all.
pub mod Provisioning
pub mod Restoring
mod Tests
use nexus_commerce.Base.{
  ℕ, ◌+◌, ◌*◌, ◌≡◌, refl, Bool, true, false, Option, none, some, String, List, [], ◌∷◌, ◌++◌,
  Result, ok, err, ◌then◌, str_eq, ltb, if◌then◌else◌,
}
use Prim.Native.String.{◌++◌ as text_append}
use nexus_commerce.Prisma.{PrismaOps}
use nexus_commerce.Redis.{RedisOps}
use nexus_commerce.Errors.{
  Thrown, app, record_not_found, unique_violation, bad_request_error, conflict_error,
  internal_server_error,
}
use nexus_commerce.Auth.Tokens.{UserRole}
use nexus_commerce.Cache.Read.{
  Cached, Caches, Faults, cache_get, cache_invalidate, ttl_user_profile,
}

pub data DeletedBy : Type 0 where
  by_self by_admin : DeletedBy

-- `User` of Prisma, which stands for its DTO too
pub record User : Type 0 where
  pub id : String
  pub email : String
  pub role : List UserRole
  pub is_active : Bool
  pub is_deleted : Bool
  pub deleted_at : Option ℕ
  pub deleted_by : Option DeletedBy
  -- `@updatedAt`, which Prisma sets at every update
  pub updated_at : ℕ

-- The `data` of the updates, each with its time
pub data UserUpdate : Type 0 where
  soft_delete : ℕ → DeletedBy → UserUpdate
  restore : ℕ → UserUpdate
  push_role : ℕ → UserRole → UserUpdate

abbrev pub apply_update : UserUpdate → User → User
apply_update (soft_delete now by) u = record u {
  is_deleted = true;
  is_active = false;
  deleted_at = some now;
  deleted_by = some by;
  updated_at = now;
}
apply_update (restore now) u = record u {
  is_deleted = false;
  is_active = true;
  deleted_at = none;
  deleted_by = none;
  updated_at = now;
}
apply_update (push_role now r) u = record u { role = u.role ++ r ∷ []; updated_at = now }

-- The delegate `prisma.user`
abbrev pub UserDb : Type 1
UserDb = PrismaOps User UserUpdate apply_update (λ u. u.id) (λ u. u.email)

pub record UserDeps : Type 1 where
  pub db : UserDb
  pub redis : RedisOps String (Cached User) str_eq

-- `userProfileKey`
abbrev pub user_profile_key : String → String
user_profile_key id = text_append "user-service:user:" (text_append id ":profile")

-- The rows that `activeUserFilter` leaves
abbrev pub if_active : Option User → Option User
if_active none = none
if_active (some u) = if u.is_deleted then none else some u

-- The row that `createUser` makes, with the defaults of the schema
abbrev pub new_user : ℕ → String → String → UserRole → User
new_user now id email role = record {
  id = id;
  email = email;
  role = role ∷ [];
  is_active = true;
  is_deleted = false;
  deleted_at = none;
  deleted_by = none;
  updated_at = now;
}

module _ (d : UserDeps) where
  open d use {db, redis}

  -- The tables, the caches, and the audit log and the outbox by the `action`s and event types
  pub record World : Type 0 where
    pub users : db.Table
    pub caches : Caches redis
    pub audit : List String
    pub events : List String

  abbrev pub looked_up : World → Caches redis × Option User → World × Option User
  looked_up w (caches, found) = (record w { caches = caches }, found)

  -- `findUserById`, which reads through the cache
  pub find_user_by_id : ℕ → Faults → String → World → World × Option User
  find_user_by_id now f id w = looked_up w (
      cache_get redis now (user_profile_key id) ttl_user_profile f (if_active (db.find id w.users))
        w.caches)

  abbrev pub recorded : String → String → World → World
  recorded action event w = record w {
    audit = w.audit ++ action ∷ [];
    events = w.events ++ event ∷ [];
  }

  abbrev pub reread : World × Option User → World × Result Thrown User
  reread (w, none) = (w, err (app (internal_server_error "Account provisioning failed")))
  reread (w, some u) = (w, ok u)

  -- `provisionAccount` from the transaction on: what creating the row gave, and what the writing of the
  -- profile threw, if it threw
  abbrev pub provision_created :
      ℕ → Faults → String → Option Thrown → Option db.Table → World → World × Result Thrown User
  provision_created later f id profile none w = (w, err unique_violation)
  provision_created later f id (some e) (some t) w = (w, err e)
  provision_created later f id none (some t) w = reread (
      find_user_by_id later f id
        (recorded "USER_CREATED" "user.registered" (record w { users = t })))

  abbrev pub provision_unless :
      ℕ
      → Faults
      → String
      → String
      → UserRole
      → Option Thrown
      → Option User
      → World
      → World × Result Thrown User
  provision_unless later f id email role profile (some u) w =
      (w, err (app (conflict_error "A user with this email address already exists" (some "email"))))
  provision_unless later f id email role profile none w =
      provision_created later f id profile (db.create (new_user later id email role) w.users) w

  abbrev pub provision_found :
      ℕ
      → Faults
      → String
      → String
      → UserRole
      → Option Thrown
      → World × Option User
      → World × Result Thrown User
  provision_found later f id email role profile (w, some u) = (w, ok u)
  provision_found later f id email role profile (w, none) =
      provision_unless later f id email role profile (db.find_by email w.users) w

  -- `provisionAccount`: the look-ups by the id are made at `now` and at `later`
  pub provision_account :
      ℕ
      → ℕ
      → Faults
      → String
      → String
      → UserRole
      → Option Thrown
      → World
      → World × Result Thrown User
  provision_account now later f id email role profile w =
      provision_found later f id email role profile (find_user_by_id now f id w)

  abbrev pub actor_of : String → String → DeletedBy
  actor_of actor id = if str_eq actor id then by_self else by_admin

  -- `softDeleteUser` of the repository in its transaction, whose cache call may not go through
  abbrev pub delete_found :
      ℕ → Bool → String → String → World × Option User → World × Result Thrown Unit
  delete_found now throws id actor (w, none) =
      (w, err (app (bad_request_error "User not found" (some "id"))))
  delete_found now throws id actor (w, some u) = (
    recorded "USER_DELETED" "user.deleted" (record w {
      users = db.update id (soft_delete now (actor_of actor id)) w.users;
      caches = cache_invalidate redis throws (user_profile_key id) w.caches;
    }),
    ok tt,
  )

  -- `deleteUser`
  pub delete_user : ℕ → Faults → Bool → String → String → World → World × Result Thrown Unit
  delete_user now f throws id actor w =
      delete_found now throws id actor (find_user_by_id now f id w)

  abbrev pub day_ms : ℕ
  day_ms = 24 * 60 * 60 * 1000

  -- `graceDays`
  abbrev pub grace_days : Option DeletedBy → ℕ
  grace_days (some by_admin) = 60
  grace_days _ = 30

  abbrev pub restore_deleted :
      ℕ → Bool → String → User → Option ℕ → World → World × Result Thrown User
  restore_deleted now throws id u none w =
      (w, err (app (bad_request_error "Account is not restorable" (some "id"))))
  restore_deleted now throws id u (some at) w =
      if ltb (at + grace_days u.deleted_by * day_ms) now
      then (w, err (app (bad_request_error "Restore window expired" (some "id"))))
      else (
        recorded "USER_RESTORED" "user.restored" (record w {
          users = db.update id (restore now) w.users;
          caches = cache_invalidate redis throws (user_profile_key id) w.caches;
        }),
        ok (apply_update (restore now) u),
      )

  abbrev pub restore_found : ℕ → Bool → String → Option User → World → World × Result Thrown User
  restore_found now throws id none w =
      (w, err (app (bad_request_error "User not found" (some "id"))))
  restore_found now throws id (some u) w = restore_deleted now throws id u u.deleted_at w

  -- `restoreUser`
  pub restore_user : ℕ → Bool → String → World → World × Result Thrown User
  restore_user now throws id w = restore_found now throws id (db.find id w.users) w
