-- ===== src/Auth/Login/Entry.antt =====
-- When a sign-in succeeds, and what it leaves.
use nexus_commerce.Base.{
  ℕ, ◌≡◌, refl, sym, ap, ◌∙◌, true, Option, none, some, String, ok, err, ◌then◌, err-ok,
  if◌then◌else◌, Bool-cases, inl, inr, str_eq→eq, str_eq_self,
}
use nexus_commerce.Errors.{AppError, Thrown, app}
use nexus_commerce.Auth.Tokens.{UserRole, customer, seller, issue_access_token}
use nexus_commerce.Auth.Refresh.{find_active_token_hash, sign_refresh_token}
use nexus_commerce.Auth.Refresh.Issue.{issue_refresh_token-text, issue_refresh_token-hash}
use nexus_commerce.Auth.Credential.{Credential, apply_update, reset_attempts, has_role}
use nexus_commerce.Auth.Account.{refusal, some_admin_role, admin_active_role}
use nexus_commerce.Auth.Lockout.{reset_login_attempts, handle_failed_login}
use nexus_commerce.Auth.Lockout.Laws.{find_by-update_own}
use nexus_commerce.Auth.Login.{
  AuthDeps, RequestContext, AuthResult, World, Answer, login_with, verify_credentials, verify_found,
  failed, complete_unless, complete_login, issue_session, payload_of, enter_customer, enter_seller,
  enter_admin, customer_login, seller_login, admin_login, is_surface,
}
use nexus_commerce.Auth.Login.Surfaces.{
  Surface, customer_web, seller_web, admin_web, surface_name, IsServed, IsOpen, session_role,
  refusal-none, refusal-IsOpen, has_role→Any, Any→has_role, some_admin_role→Any,
  Any→some_admin_role,
}

is_surface→eq :
    (expected : String) (o : Option String) → is_surface expected o ≡ true → o ≡ some expected
is_surface→eq expected none h = cc
is_surface→eq expected (some client) h = ap some (str_eq→eq client expected h)

module _ (d : AuthDeps) where
  open d use {db, redis, jwt, config, hash, matches, surface_text, locked_text, blocked_text}
  open db use {Table, find, find_by, update}
  open redis use {Store}

  abbrev pub enter : Surface → ℕ → String → Credential → World d → Answer d AuthResult
  enter customer_web = enter_customer d
  enter seller_web = enter_seller d
  enter admin_web = enter_admin d

  -- The sign-in of a surface.
  abbrev pub login :
      Surface → ℕ → String → String → String → RequestContext → World d → Answer d AuthResult
  login customer_web = customer_login d
  login seller_web = seller_login d
  login admin_web = admin_login d

  -- The conditions of a sign-in to the account `c`.
  abbrev pub MayLogIn :
      Surface → ℕ → String → String → RequestContext → World d → Credential → Type 0
  MayLogIn s now email password context w c =
      (context.client_type ≡ some (surface_name s))
      × (find_by email w.credentials ≡ some c)
      × (matches password c.password ≡ true)
      × IsServed s c.role
      × IsOpen now c

  pub login-eq_enter :
      (s : Surface) (now : ℕ) (family email password : String) (context : RequestContext)
      (w : World d)
      → login s now family email password context w
        ≡ login_with d (surface_name s) (enter s) now family email password context w
  unfolding customer_login seller_login admin_login
  login-eq_enter customer_web now family email password context w = refl
  login-eq_enter seller_web now family email password context w = refl
  login-eq_enter admin_web now family email password context w = refl

  pub enter-served :
      (s : Surface) (now : ℕ) (family : String) (c : Credential) (w : World d)
      → IsServed s c.role
      → enter s now family c w ≡ complete_login d now family c (session_role s c.role) w
  unfolding enter_customer enter_seller enter_admin
  enter-served customer_web now family c w served =
      let e = Any→has_role customer c.role served in rw e refl
  enter-served seller_web now family c w served =
      let e = Any→has_role seller c.role served in rw e refl
  enter-served admin_web now family c w served =
      let e = Any→some_admin_role c.role served in rw e refl

  -- What a sign-in that succeeded has passed, from the end to the start.
  complete-ok :
      (now : ℕ) (family : String) (c : Credential) (active : UserRole) (w : World d)
      (r : AuthResult) (o : Option AppError)
      → (complete_unless d now family c active o w).1 ≡ ok r
      → o ≡ none
  unfolding complete_unless
  complete-ok now family c active w r none h = refl
  complete-ok now family c active w r (some e) h = err-ok (app e) r h

  enter-ok :
      (s : Surface) (now : ℕ) (family : String) (c : Credential) (w : World d) (r : AuthResult)
      → (enter s now family c w).1 ≡ ok r
      → IsServed s c.role × IsOpen now c
  unfolding enter_customer enter_seller enter_admin complete_login
  enter-ok customer_web now family c w r h = elim (Bool-cases (has_role customer c.role)) [
    | inl yes' ↦ (
      has_role→Any customer c.role yes',
      refusal-IsOpen locked_text blocked_text now c (
          complete-ok now family c customer w r (refusal locked_text blocked_text now c)
            (rw yes' at h)),
    )
    | inr no' ↦ err-ok _ r (rw no' at h)
  ]
  enter-ok seller_web now family c w r h = elim (Bool-cases (has_role seller c.role)) [
    | inl yes' ↦ (
      has_role→Any seller c.role yes',
      refusal-IsOpen locked_text blocked_text now c (
          complete-ok now family c seller w r (refusal locked_text blocked_text now c)
            (rw yes' at h)),
    )
    | inr no' ↦ err-ok _ r (rw no' at h)
  ]
  enter-ok admin_web now family c w r h = elim (Bool-cases (some_admin_role c.role)) [
    | inl yes' ↦ (
      some_admin_role→Any c.role yes',
      refusal-IsOpen locked_text blocked_text now c (
          complete-ok now family c (admin_active_role c.role) w r
            (refusal locked_text blocked_text now c) (rw yes' at h)),
    )
    | inr no' ↦ err-ok _ r (rw no' at h)
  ]

  failed-err : (w : World d) (o : Table × Option Thrown) → (e : Thrown) × ((failed d w o).1 ≡ err e)
  failed-err w (t, none) = (_, refl)
  failed-err w (t, some e) = (e, refl)

  then-err :
      {A B : Type 0} (a : Answer d A) (k : A → World d → Answer d B) (b : B)
      → (e : Thrown) × (a.1 ≡ err e)
      → ¬ ((a then k).1 ≡ ok b)
  then-err (w, err e) k b h g = err-ok e b g
  then-err (w, ok a) k b h g = err-ok h.0 a (sym h.1)

  verified-ok :
      (s : Surface) (now : ℕ) (family password : String) (w : World d) (r : AuthResult)
      (found : Option Credential)
      → (verify_found d now password found w then (λ c w'. enter s now family c w')).1 ≡ ok r
      → (c : Credential) × (found ≡ some c)
        × (matches password c.password ≡ true)
        × IsServed s c.role
        × IsOpen now c
  unfolding verify_found
  verified-ok s now family password w r none h = err-ok _ r h
  verified-ok s now family password w r (some c) h =
      elim (Bool-cases (matches password c.password)) [
        | inl right ↦
            let (served, opened) = enter-ok s now family c w r (rw right at h) in
            (c, refl, right, served, opened)
        | inr wrong ↦
            let step = failed d w (handle_failed_login db now c.id w.credentials) in
            absurd (
              then-err step (λ c' w'. enter s now family c' w') r
                (failed-err w (handle_failed_login db now c.id w.credentials)) (rw wrong at h))
      ]

  -- A sign-in succeeds only for an account whose email and password were given, on the surface that the
  -- request names, with a role that the surface serves, that is neither deleted, blocked nor deactivated
  -- and whose lock, if it has one, is over.
  pub login-MayLogIn :
      (s : Surface) (now : ℕ) (family email password : String) (context : RequestContext)
      (w : World d) (r : AuthResult)
      → (login s now family email password context w).1 ≡ ok r
      → (c : Credential) × MayLogIn s now email password context w c
  unfolding verify_credentials
  login-MayLogIn s now family email password context w r h =
      let h' =
        ap (λ (a : Answer d AuthResult). a.1)
          (sym (login-eq_enter s now family email password context w))
        ∙ h in
      elim (Bool-cases (is_surface (surface_name s) context.client_type)) [
        | inr other ↦ err-ok _ r (rw other at h')
        | inl same ↦
            let (c, found, right, served, opened) =
              verified-ok s now family password w r (find_by email w.credentials) (rw same at h') in
            (
              c,
              (
                is_surface→eq (surface_name s) context.client_type same,
                found,
                right,
                served,
                opened,
              ),
            )
      ]

  pub verified-right :
      (s : Surface) (now : ℕ) (family email password : String) (w : World d) (c : Credential)
      → find_by email w.credentials ≡ some c
      → matches password c.password ≡ true
      → (verify_credentials d now email password w then (λ c' w'. enter s now family c' w'))
        ≡ enter s now family c w
  unfolding verify_credentials verify_found
  verified-right s now family email password w c found right = rw (found, right) refl

  -- A sign-in that meets the conditions gives a session of the account, in the role of the surface, with
  -- the new refresh token on record, and takes the wrong passwords and the lock off the account.
  pub login-session :
      (s : Surface) (now : ℕ) (family email password : String) (context : RequestContext)
      (w : World d) (c : Credential)
      → MayLogIn s now email password context w c
      → let payload = payload_of d c (session_role s c.role) in
        let token = sign_refresh_token redis jwt config hash now payload family in
        let after = login s now family email password context w in
        (after.1
          ≡ ok (record {
            id = c.id;
            email = c.email;
            role = c.role;
            access_token = issue_access_token jwt config now payload;
            refresh_token = token;
          }))
        × (find_active_token_hash redis jwt config hash now c.id family after.0.sessions
            ≡ some (hash token))
        × (find_by email after.0.credentials ≡ some (apply_update (reset_attempts now) c))
  unfolding complete_login complete_unless issue_session
  login-session s now family email password context w c (same, found, right, served, opened) =
      let payload = payload_of d c (session_role s c.role) in
      let w1 = record w { credentials = reset_login_attempts db now c.id w.credentials } in
      let surface : is_surface (surface_name s) context.client_type ≡ true =
        ap (is_surface (surface_name s)) same ∙ str_eq_self (surface_name s) in
      let here : login s now family email password context w
          ≡ issue_session d now family c (session_role s c.role) w1 =
        login-eq_enter s now family email password context w
        ∙ (rw surface (verified-right s now family email password w c found right))
        ∙ enter-served s now family c w served
        ∙ (let none_refused = refusal-none locked_text blocked_text now c opened in
            rw none_refused refl) in
      rw here (
        rw (issue_refresh_token-text redis jwt config hash now payload c.id family w.sessions) refl,
        issue_refresh_token-hash redis jwt config hash now payload c.id family w.sessions
            ∙ ap (λ text. some (hash text))
                (issue_refresh_token-text redis jwt config hash now payload c.id family w.sessions),
        find_by-update_own db (reset_attempts now) w.credentials email c found,
      )
