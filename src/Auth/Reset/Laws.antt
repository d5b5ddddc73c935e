-- ===== src/Auth/Reset/Laws.antt =====
-- What a reset of a password needs and leaves, from the request to the next sign-in.
use nexus_commerce.Base.{
  ℕ, ◌≡◌, ◌≤◌, refl, sym, ap, ◌∙◌, false, Option, none, some, String, Result, ok, err, ◌then◌,
  err-ok, ok-inj, then-ok, str_eq, ltb, ltb→le, if◌then◌else◌, Bool-cases, inl, inr, str_eq_self,
  arith,
}
use mathlib.Core.Option
use mathlib.Core.Path.{subst}
use nexus_commerce.Prisma.Laws.{changed, find_by-update}
use nexus_commerce.Errors.{Thrown, app, bad_request_error}
use nexus_commerce.Auth.Credential.{
  Credential, apply_update as apply_credential_update, set_password,
}
use nexus_commerce.Auth.Reset.{
  PasswordReset, ResetUpdate, mark_used, apply_update, ResetDeps, World, check_used, check_reset,
  set_new_password, finish_reset, verify_password_reset,
}

pub apply_update-reset_token :
    (u : ResetUpdate) (r : PasswordReset) → (apply_update u r).reset_token ≡ r.reset_token
apply_update-reset_token (mark_used now) r = refl

pub apply_update-id : (u : ResetUpdate) (r : PasswordReset) → (apply_update u r).id ≡ r.id
apply_update-id (mark_used now) r = refl

module _ (d : ResetDeps) where
  open d use {auth, resets, hash_password, secret, expires_in, inherited}
  open auth use {db, jwt}

  -- The reset of the token is still to be used at the time.
  abbrev pub IsUsable : ℕ → PasswordReset → Type 0
  IsUsable now r = (r.used_at ≡ none) × (now ≤ r.expires_at)

  check_used-ok :
      (now : ℕ) (r r' : PasswordReset) (o : Option ℕ)
      → check_used d now r o ≡ ok r'
      → (r ≡ r') × (o ≡ none) × (now ≤ r.expires_at)
  unfolding check_used
  check_used-ok now r r' (some at) h = err-ok _ r' h
  check_used-ok now r r' none h = elim (Bool-cases (ltb r.expires_at now)) [
    | inl late ↦ err-ok _ r' (rw late at h)
    | inr early ↦ (ok-inj r r' (rw early at h), refl, ltb→le r.expires_at now early)
  ]

  check_reset-ok :
      (now : ℕ) (o : Option PasswordReset) (r : PasswordReset)
      → check_reset d now o ≡ ok r
      → (o ≡ some r) × IsUsable now r
  unfolding check_reset
  check_reset-ok now none r h = err-ok _ r h
  check_reset-ok now (some r') r h =
      let (same, unused, early) = check_used-ok now r' r r'.used_at h in
      (ap some same, subst (λ x. IsUsable now x) same (unused, early))

  pub check_reset-usable :
      (now : ℕ) (r : PasswordReset) → IsUsable now r → check_reset d now (some r) ≡ ok r
  unfolding check_reset check_used
  check_reset-usable now r (unused, early) =
      let in_time : ltb r.expires_at now ≡ false = ground arith in
      ap (λ o. check_used d now r o) unused ∙ (rw in_time refl)

  check_reset-used :
      (now at : ℕ) (r : PasswordReset)
      → r.used_at ≡ some at
      → check_reset d now (some r)
        ≡ err (app (bad_request_error "Reset token has already been used" none))
  unfolding check_reset check_used
  check_reset-used now at r used = ap (λ o. check_used d now r o) used

  -- The tables after the transaction.
  abbrev pub reset_world : ℕ → PasswordReset → String → World d → World d
  reset_world now r password w = record w {
    credentials = db.update r.credential_id (set_password (hash_password password)) w.credentials;
    reset_rows = resets.update r.id (mark_used now) w.reset_rows;
  }

  set_new_password-ok :
      (now : ℕ) (r : PasswordReset) (password : String) (c : Option Credential)
      (row : Option PasswordReset) (w : World d) (u : Unit)
      → (set_new_password d now r password c row w).1 ≡ ok u
      → set_new_password d now r password c row w ≡ (reset_world now r password w, ok tt)
  unfolding set_new_password
  set_new_password-ok now r password (some c) (some row) w u h = refl
  set_new_password-ok now r password none row w u h = err-ok _ u h
  set_new_password-ok now r password (some c) none w u h = err-ok _ u h

  verified :
      (now : ℕ) (token password : String) (w : World d)
      → (verify_password_reset d now token password w).1 ≡ ok tt
      → (r : PasswordReset) × (resets.find_by token w.reset_rows ≡ some r)
        × IsUsable now r
        × (verify_password_reset d now token password w ≡ (reset_world now r password w, ok tt))
  unfolding verify_password_reset finish_reset
  verified now token password w h =
      let finish = λ (r : PasswordReset) (w' : World d). finish_reset d now password r w' in
      let (r, checked, step) =
        then-ok (w, check_reset d now (resets.find_by token w.reset_rows)) finish tt h in
      let (found, usable) = check_reset-ok now (resets.find_by token w.reset_rows) r checked in
      let ended : (finish r w).1 ≡ ok tt =
        ap (λ (a : World d × Result Thrown Unit). a.1) (sym step) ∙ h in
      (
        r,
        found,
        usable,
        step
            ∙ set_new_password-ok now r password (db.find r.credential_id w.credentials)
                (resets.find r.id w.reset_rows) w tt ended,
      )

  reset-find_by :
      (now : ℕ) (token password : String) (w : World d) (r : PasswordReset)
      → resets.find_by token w.reset_rows ≡ some r
      → resets.find_by token (reset_world now r password w).reset_rows
        ≡ some (record r { used_at = some now })
  reset-find_by now token password w r found =
      find_by-update resets apply_update-reset_token r.id (mark_used now) w.reset_rows token
      ∙ ap (Option.map (changed resets apply_update-reset_token r.id (mark_used now))) found
      ∙ (let self = str_eq_self r.id in rw self refl)

  -- A reset that succeeds used a token on record, not used before and not expired; it sets the password of
  -- the account of the token and of no other.
  pub verify_password_reset-ok :
      (now : ℕ) (token password : String) (w : World d)
      → (verify_password_reset d now token password w).1 ≡ ok tt
      → let after = (verify_password_reset d now token password w).0 in
        (r : PasswordReset) × (resets.find_by token w.reset_rows ≡ some r)
        × IsUsable now r
        × ((i : String)
            → db.find i after.credentials ≡ (
                if str_eq r.credential_id i
                then Option.map
                    (apply_credential_update (set_password (hash_password password)))
                    (db.find i w.credentials)
                else db.find i w.credentials))
  verify_password_reset-ok now token password w h =
      let (r, found, usable, ended) = verified now token password w h in
      (
        r,
        found,
        usable,
        λ i.
            ap (λ (a : World d × Result Thrown Unit). db.find i a.0.credentials) ended
            ∙ db.find-update r.credential_id (set_password (hash_password password)) w.credentials
                i,
      )

  verify-used :
      (later at : ℕ) (token again : String) (r : PasswordReset) (w : World d)
      → resets.find_by token w.reset_rows ≡ some r
      → r.used_at ≡ some at
      → verify_password_reset d later token again w
        ≡ (w, err (app (bad_request_error "Reset token has already been used" none)))
  unfolding verify_password_reset
  verify-used later at token again r w found used =
      let refused = check_reset-used later at r used in rw (found, refused) refl

  -- A token resets one password: after it did, it is refused as used, whenever and with whatever
  -- password it is sent again, and nothing changes.
  pub verify_password_reset-once :
      (now later : ℕ) (token password again : String) (w : World d)
      → (verify_password_reset d now token password w).1 ≡ ok tt
      → let after = (verify_password_reset d now token password w).0 in
        verify_password_reset d later token again after
        ≡ (after, err (app (bad_request_error "Reset token has already been used" none)))
  verify_password_reset-once now later token password again w h =
      let (r, found, usable, ended) = verified now token password w h in
      let Refused = λ (w' : World d).
        verify_password_reset d later token again w'
        ≡ (w', err (app (bad_request_error "Reset token has already been used" none))) in
      subst Refused (ap (λ (a : World d × Result Thrown Unit). a.0) (sym ended)) (
        verify-used later now token again (record r { used_at = some now })
          (reset_world now r password w) (reset-find_by now token password w r found) refl)
