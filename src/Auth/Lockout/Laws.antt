-- ===== src/Auth/Lockout/Laws.antt =====
-- What wrong passwords do to an account: the counter and the lock of utils/handleLogin.ts.
use nexus_commerce.Base.{
  ℕ, ◌+◌, ◌≡◌, refl, ap, ◌∙◌, none, some, String, leb, if◌then◌else◌, Bool-cases, inl, inr,
  str_eq_self,
}
use mathlib.Core.Option
use nexus_commerce.Prisma.Laws.{changed, find-changed, find_by-update}
use nexus_commerce.Auth.Credential.{
  Credential, CredentialDb, CredentialUpdate, apply_update, apply_update-email, increment_failures,
  lock_until,
}
use nexus_commerce.Auth.Lockout.{max_login_attempts, lock_duration_ms, handle_failed_login}

-- The row after a wrong password.
abbrev pub after_failure : ℕ → Credential → Credential
after_failure now c =
    if leb max_login_attempts (c.failed_login_attempts + 1)
    then apply_update (lock_until (now + lock_duration_ms)) (apply_update increment_failures c)
    else apply_update increment_failures c

module _ (db : CredentialDb) where
  open db use {Table, find, find_by, update, find_by-find}

  pub find_by-update_own :
      (u : CredentialUpdate) (t : Table) (e : String) (c : Credential)
      → find_by e t ≡ some c
      → find_by e (update c.id u t) ≡ some (apply_update u c)
  find_by-update_own u t e c here =
      find_by-update db apply_update-email c.id u t e
      ∙ ap (Option.map (changed db apply_update-email c.id u)) here
      ∙ (let self = str_eq_self c.id in rw self refl)

  find-update_own :
      (u : CredentialUpdate) (t : Table) (e : String) (c : Credential)
      → find_by e t ≡ some c
      → find c.id (update c.id u t) ≡ some (apply_update u c)
  find-update_own u t e c here =
      find-changed db apply_update-email c.id u t c (find_by-find e t c here).1
      ∙ (let self = str_eq_self c.id in rw self refl)

  pub handle_failed_login-row :
      (now : ℕ) (t : Table) (e : String) (c : Credential)
      → find_by e t ≡ some c
      → let (t', thrown) = handle_failed_login db now c.id t in
        (find_by e t' ≡ some (after_failure now c)) × (thrown ≡ none)
  unfolding handle_failed_login
  handle_failed_login-row now t e c here =
      let t1 = update c.id increment_failures t in
      let c1 = apply_update increment_failures c in
      let found = find-update_own increment_failures t e c here in
      let here1 = find_by-update_own increment_failures t e c here in
      elim (Bool-cases (leb max_login_attempts (c.failed_login_attempts + 1))) [
        | inl due ↦
            rw (found, due)
              (find_by-update_own (lock_until (now + lock_duration_ms)) t1 e c1 here1, refl)
        | inr early ↦ rw (found, early) (here1, refl)
      ]
