-- ===== src/Auth/Bootstrap/Laws.antt =====
-- What a bootstrap that ends without an error leaves.
use nexus_commerce.Base.{
  ℕ, suc, ◌≡◌, refl, ap, ◌∙◌, Bool, true, false, Option, none, some, String, List, [], ◌∷◌, ◌++◌,
  Result, ok, err, if◌then◌else◌, str_eq_self,
}
use mathlib.Core.Path.{subst}
use nexus_commerce.Auth.Tokens.{super_admin}
use nexus_commerce.Auth.Credential.{Credential, CredentialDb, has_role}
use nexus_commerce.Auth.Bootstrap.{
  SuperAdminEnv, BootstrapError, undefined, delays, Attempt, World, set_up, check_again, on_created,
  new_super_admin, on_existing, create_super_admin, or_retry, attempt_from,
  bootstrap_super_admin_with_retry,
}

module _ (db : CredentialDb) (hash_password : String → String) (env : SuperAdminEnv) where
  abbrev W : Type 0
  W = World db hash_password

  abbrev R : Type 0
  R = W × Result BootstrapError Unit

  -- The email of the configuration is that of an account with the role SUPER_ADMIN.
  abbrev pub IsReady : W → Type 0
  IsReady w =
      (c : Credential) × (db.find_by env.email w.credentials ≡ some c)
      × (has_role super_admin c.role ≡ true)

  abbrev IsReadyIfOk : R → Type 0
  IsReadyIfOk (w, ok u) = IsReady w
  IsReadyIfOk (w, err e) = Unit

  role-IsReadyIfOk :
      (c : Credential) (w : W) (e : BootstrapError) (r : Bool)
      → db.find_by env.email w.credentials ≡ some c
      → has_role super_admin c.role ≡ r
      → IsReadyIfOk (if r then (w, ok tt) else (w, err e))
  role-IsReadyIfOk c w e true h k = (c, h, k)
  role-IsReadyIfOk c w e false h k = tt

  check_again-IsReadyIfOk :
      (o : Option Credential) (w : W)
      → db.find_by env.email w.credentials ≡ o
      → IsReadyIfOk (check_again db hash_password o w)
  unfolding check_again
  check_again-IsReadyIfOk none w h = tt
  check_again-IsReadyIfOk (some c) w h = role-IsReadyIfOk c w _ _ h refl

  set_up-IsReadyIfOk :
      (a : Attempt db hash_password) (w : W) (profile audited : Bool)
      → IsReady w
      → a.profile_created ≡ profile
      → a.audit_written ≡ audited
      → IsReadyIfOk (set_up db hash_password a w)
  unfolding set_up
  set_up-IsReadyIfOk a w true true h p q = rw (p, q) h
  set_up-IsReadyIfOk a w true false h p q = rw (p, q) tt
  set_up-IsReadyIfOk a w false audited h p q = rw p tt

  on_created-IsReadyIfOk :
      (a : Attempt db hash_password) (o : Option db.Table) (w : W)
      → db.create (new_super_admin db hash_password env a) w.credentials ≡ o
      → IsReadyIfOk (on_created db hash_password env a o w)
  unfolding on_created
  on_created-IsReadyIfOk a none w h = check_again-IsReadyIfOk _ w refl
  on_created-IsReadyIfOk a (some t) w h =
      let c = new_super_admin db hash_password env a in
      let found : db.find a.id t ≡ some c =
        db.find-create c w.credentials t a.id h
        ∙ ap (λ (b : Bool). if b then some c else db.find a.id w.credentials) (str_eq_self a.id) in
      set_up-IsReadyIfOk a (record w { credentials = t }) _ _
        (c, db.find-find_by a.id t c found, refl) refl refl

  on_existing-IsReadyIfOk :
      (a : Attempt db hash_password) (o : Option Credential) (w : W)
      → db.find_by env.email w.credentials ≡ o
      → IsReadyIfOk (on_existing db hash_password env a o w)
  unfolding on_existing
  on_existing-IsReadyIfOk a none w h = on_created-IsReadyIfOk a _ _ refl
  on_existing-IsReadyIfOk a (some c) w h = role-IsReadyIfOk c w _ _ h refl

  or_retry-IsReadyIfOk :
      (retry : BootstrapError → W → R) (r : R)
      → IsReadyIfOk r
      → ((e : BootstrapError) (w : W) → IsReadyIfOk (retry e w))
      → IsReadyIfOk (or_retry db hash_password retry r)
  or_retry-IsReadyIfOk retry (w, ok u) h k = h
  or_retry-IsReadyIfOk retry (w, err e) h k = k e w

  attempt_from-IsReadyIfOk :
      (attempts : ℕ → Attempt db hash_password) (pauses : List ℕ) (i : ℕ) (last : BootstrapError)
      (w : W)
      → IsReadyIfOk (attempt_from db hash_password env attempts pauses i last w)
  unfolding attempt_from create_super_admin
  attempt_from-IsReadyIfOk attempts [] i last w = tt
  attempt_from-IsReadyIfOk attempts (p ∷ ps) i last w =
      or_retry-IsReadyIfOk
        (λ (e : BootstrapError) (w' : W).
          attempt_from db hash_password env attempts ps (suc i) e w')
        _ (on_existing-IsReadyIfOk (attempts i) _ w refl)
        (λ e w'. attempt_from-IsReadyIfOk attempts ps (suc i) e w')

  -- A bootstrap that ends without an error leaves an account of the configured email with the role
  -- SUPER_ADMIN, whatever other instances do to the accounts between a look-up and the creation after
  -- it, and whichever attempts before the last one fail.
  pub bootstrap_super_admin_with_retry-IsReady :
      (attempts : ℕ → Attempt db hash_password) (w w' : W)
      → bootstrap_super_admin_with_retry db hash_password (some env) attempts w ≡ (w', ok tt)
      → IsReady w'
  unfolding bootstrap_super_admin_with_retry
  bootstrap_super_admin_with_retry-IsReady attempts w w' h =
      subst IsReadyIfOk h (attempt_from-IsReadyIfOk attempts delays 0 undefined w)

  -- With the email and the id free and no other instance in between, the first attempt ends the
  -- bootstrap without an error if the profile is created and the audit entry written.
  bootstrap_super_admin_with_retry-ok :
      (attempts : ℕ → Attempt db hash_password) (w : W)
      → db.find_by env.email w.credentials ≡ none
      → db.find (attempts 0).id w.credentials ≡ none
      → (attempts 0).meanwhile w.credentials ≡ w.credentials
      → (attempts 0).profile_created ≡ true
      → (attempts 0).audit_written ≡ true
      → (w' : W) × (bootstrap_super_admin_with_retry db hash_password (some env) attempts w
          ≡ (w', ok tt))
  unfolding bootstrap_super_admin_with_retry attempt_from create_super_admin on_existing on_created
      set_up
  bootstrap_super_admin_with_retry-ok attempts w free free_id alone profile audit =
      let (t, made) =
        db.create_free (new_super_admin db hash_password env (attempts 0)) w.credentials free_id
          free in
      (
        record w { credentials = t; audit = w.audit ++ (attempts 0).id ∷ [] },
        rw (free, alone, made, profile, audit) refl,
      )
