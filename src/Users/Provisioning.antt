-- ===== src/Users/Provisioning.antt =====
-- The creation of an account that is not there yet.
use nexus_commerce.Base.{
  ℕ, ◌+◌, ◌*◌, ◌≡◌, ◌<◌, refl, ap, ◌∙◌, Option, none, some, String, Result, err, str_eq_self,
  none-ne-some,
}
use nexus_commerce.Errors.{Thrown, app, internal_server_error}
use nexus_commerce.Auth.Tokens.{UserRole}
use nexus_commerce.Cache.Read.{Caches, no_faults, cache_get, ttl_user_profile}
use nexus_commerce.Cache.Read.Negative.{IsFresh, cache_get-fresh, cache_get-hides}
use nexus_commerce.Users.{
  User, UserDeps, World, user_profile_key, if_active, new_user, looked_up, find_user_by_id,
  recorded, reread, provision_created, provision_unless, provision_found, provision_account,
}

module _ (d : UserDeps) where
  open d use {db, redis}

  reread-none :
      (p : World d × Option User)
      → p.1 ≡ none
      → reread d p ≡ (p.0, err (app (internal_server_error "Account provisioning failed")))
  reread-none (w, none) h = refl
  reread-none (w, some u) h = none-ne-some u _ (some u) h refl

  looked_up-found : (w : World d) (p : Caches redis × Option User) → (looked_up d w p).1 ≡ p.1
  looked_up-found w (caches, found) = refl

  looked_up-users :
      (w : World d) (p : Caches redis × Option User) → (looked_up d w p).0.users ≡ w.users
  looked_up-users w (caches, found) = refl

  -- The creation of an account always fails, although it creates the account: of an id that neither
  -- the tables nor the caches know and an email that is free, with the profile written, if Redis is up
  -- and the second look-up comes within a minute of the first.
  pub provision_account-fails :
      (now later : ℕ) (id email : String) (role : UserRole) (w : World d)
      → IsFresh redis (user_profile_key id) w.caches
      → db.find id w.users ≡ none
      → db.find_by email w.users ≡ none
      → later < now + 60 * 1000
      → let after = provision_account d now later no_faults id email role none w in
        (after.1 ≡ err (app (internal_server_error "Account provisioning failed")))
        × (db.find id after.0.users ≡ some (new_user later id email role))
  unfolding provision_account find_user_by_id
  provision_account-fails now later id email role w fresh absent free soon =
      let key = user_profile_key id in
      let row = new_user later id email role in
      let (t, made) = db.create_free row w.users absent free in
      let self = str_eq_self id in
      let stored : db.find id t ≡ some row =
        db.find-create row w.users t id made ∙ (rw self refl) in
      let first = cache_get redis now key ttl_user_profile no_faults none w.caches in
      let w1 = record w { caches = first.0 } in
      let w2 = recorded d "USER_CREATED" "user.registered" (record w1 { users = t }) in
      let first_none : first.1 ≡ none =
        ap (λ (p : Caches redis × Option User). p.1)
          (cache_get-fresh redis now key ttl_user_profile none w.caches fresh) in
      let second =
        cache_get redis later key ttl_user_profile no_faults (if_active (some row)) first.0 in
      let second_none : second.1 ≡ none =
        cache_get-hides redis now later key ttl_user_profile (if_active (some row)) w.caches fresh
          soon in
      let looked : looked_up d w first ≡ (w1, none) =
        ap (λ (o : Option User). (w1, o)) first_none in
      let ending = looked_up d w2 second in
      let path : provision_account d now later no_faults id email role none w
          ≡ (ending.0, err (app (internal_server_error "Account provisioning failed"))) =
        ap
          (λ (o : Option User). provision_found d later no_faults id email role none (
            looked_up d w
              (cache_get redis now key ttl_user_profile no_faults (if_active o) w.caches)))
          absent
        ∙ ap (provision_found d later no_faults id email role none) looked
        ∙ ap (λ (o : Option User). provision_unless d later no_faults id email role none o w1) free
        ∙ ap (λ (o : Option db.Table). provision_created d later no_faults id none o w1) made
        ∙ ap
            (λ (o : Option User). reread d (
              looked_up d w2
                (cache_get redis later key ttl_user_profile no_faults (if_active o) first.0)))
            stored
        ∙ reread-none ending (looked_up-found w2 second ∙ second_none) in
      (
        ap (λ (a : World d × Result Thrown User). a.1) path,
        ap (λ (a : World d × Result Thrown User). db.find id a.0.users) path
            ∙ ap (db.find id) (looked_up-users w2 second)
            ∙ stored,
      )
