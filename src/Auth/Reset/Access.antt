-- ===== src/Auth/Reset/Access.antt =====
-- From the request of a reset to a sign-in with the new password.
use nexus_commerce.Base.{
  ℕ, ◌+◌, ◌*◌, ◌≡◌, ◌≤◌, refl, sym, ap, ◌∙◌, true, Option, none, some, String, Result, ok, err,
  err-ok, str_eq_self,
}
use mathlib.Core.Path.{subst}
use nexus_commerce.Errors.{Thrown}
use nexus_commerce.Auth.Credential.{
  Credential, set_password, apply_update as apply_credential_update,
}
use nexus_commerce.Auth.Lockout.Laws.{find_by-update_own}
use nexus_commerce.Auth.Login.{AuthResult, RequestContext}
use nexus_commerce.Auth.Login
use nexus_commerce.Auth.Login.Surfaces.{Surface, surface_name, IsServed, IsOpen}
use nexus_commerce.Auth.Login.Entry.{login, login-session}
use nexus_commerce.Auth.Reset.{
  PasswordReset, ResetDeps, World, new_reset, reset_token, resolve_reset_page, emit_reset,
  send_link, request_for, request_password_reset, set_new_password, finish_reset,
  verify_password_reset,
}
use nexus_commerce.Auth.Reset.Laws.{reset_world, check_reset-usable}

module _ (d : ResetDeps) where
  open d use {auth, resets, hash_password, secret, expires_in, inherited}
  open auth use {db, jwt, matches}

  -- What a request that went through has left.
  abbrev IsRequested : String → PasswordReset → World d → World d → Type 0
  IsRequested email row w after =
      (after.credentials ≡ w.credentials)
      × (resets.find_by row.reset_token after.reset_rows ≡ some row)
      × (resets.find row.id after.reset_rows ≡ some row)

  emitted :
      (email token : String) (page : Result Thrown String) (w : World d)
      → (emit_reset d email token page w).1 ≡ ok tt
      → ((emit_reset d email token page w).0.credentials ≡ w.credentials)
        × ((emit_reset d email token page w).0.reset_rows ≡ w.reset_rows)
  emitted email token (ok page) w h = (refl, refl)
  emitted email token (err e) w h = err-ok e tt h

  sent :
      (email : String) (client : Option String) (row : PasswordReset) (o : Option resets.Table)
      (w : World d)
      → resets.create row w.reset_rows ≡ o
      → (send_link d email row.reset_token client o w).1 ≡ ok tt
      → IsRequested email row w (send_link d email row.reset_token client o w).0
  sent email client row none w made h = err-ok _ tt h
  sent email client row (some t) w made h =
      let (same, rows) =
        emitted email row.reset_token (resolve_reset_page d client) (record w { reset_rows = t })
          h in
      let self = str_eq_self row.id in
      let stored : resets.find row.id t ≡ some row =
        resets.find-create row w.reset_rows t row.id made ∙ (rw self refl) in
      (
        same,
        ap (resets.find_by row.reset_token) rows ∙ resets.find-find_by row.id t row stored,
        ap (resets.find row.id) rows ∙ stored,
      )

  requested :
      (now : ℕ) (id email : String) (client : Option String) (w : World d) (c : Credential)
      → db.find_by email w.credentials ≡ some c
      → (request_password_reset d now id email client w).1 ≡ ok tt
      → IsRequested email
          (new_reset d now id c)
          w
          (request_password_reset d now id email client w).0
  unfolding request_password_reset request_for
  requested now id email client w c found h =
      let row = new_reset d now id c in
      let step = ap (λ o. request_for d now id email client o w) found in
      subst (λ (a : World d × Result Thrown Unit). IsRequested email row w a.0) (sym step)
        (sent email client row (resets.create row w.reset_rows) w refl
          (ap (λ (a : World d × Result Thrown Unit). a.1) (sym step) ∙ h))

  accepted :
      (now : ℕ) (password : String) (row : PasswordReset) (c : Credential) (w : World d)
      → resets.find_by row.reset_token w.reset_rows ≡ some row
      → resets.find row.id w.reset_rows ≡ some row
      → db.find row.credential_id w.credentials ≡ some c
      → row.used_at ≡ none
      → now ≤ row.expires_at
      → verify_password_reset d now row.reset_token password w
        ≡ (reset_world d now row password w, ok tt)
  unfolding verify_password_reset finish_reset set_new_password
  accepted now password row c w found stored owner unused early =
      let usable = check_reset-usable d now row (unused, early) in
      rw found (rw usable (rw (owner, stored) refl))

  -- Whoever asked for a reset can use its token for 15 minutes, and then signs in with the new password
  -- on every surface and at every time that the account could be signed in to before.
  pub request_password_reset-login :
      (asked now later : ℕ) (id email password family : String) (client : Option String)
      (w : World d) (v : Login.World auth) (c : Credential) (s : Surface) (context : RequestContext)
      → db.find_by email w.credentials ≡ some c
      → (request_password_reset d asked id email client w).1 ≡ ok tt
      → now ≤ asked + 15 * 60 * 1000
      → matches password (hash_password password) ≡ true
      → context.client_type ≡ some (surface_name s)
      → IsServed s c.role
      → IsOpen later c
      → let w1 = (request_password_reset d asked id email client w).0 in
        let reset = verify_password_reset d now (reset_token d asked c) password w1 in
        (reset.1 ≡ ok tt)
        × ((r : AuthResult) × ((login auth s later family email password context
                (record v { credentials = reset.0.credentials })).1
              ≡ ok r))
  request_password_reset-login asked now later id email password family client w v c s context found
        sent' early right surface served opened =
      let row = new_reset d asked id c in
      let w1 = (request_password_reset d asked id email client w).0 in
      let (same, by_token, by_id) = requested asked id email client w c found sent' in
      let found1 : db.find_by email w1.credentials ≡ some c = ap (db.find_by email) same ∙ found in
      let owner = (db.find_by-find email w1.credentials c found1).1 in
      let done = accepted now password row c w1 by_token by_id owner refl early in
      let u = set_password (hash_password password) in
      let found2 : db.find_by email (reset_world d now row password w1).credentials
          ≡ some (apply_credential_update u c) =
        find_by-update_own db u w1.credentials email c found1 in
      rw done (
        refl,
        (
          _,
          (login-session auth s later family email password context
              (record v { credentials = (reset_world d now row password w1).credentials })
              (apply_credential_update u c) (surface, found2, right, served, opened)).0,
        ),
      )
