-- ===== src/Auth/Login/Guessing.antt =====
-- Guessing a password at a sign-in page: what the lock of utils/handleLogin.ts holds off, and what not.
use nexus_commerce.Base.{
  ℕ, ◌+◌, ◌*◌, ◌≡◌, ◌≤◌, ◌<◌, refl, sym, ap, ◌∙◌, true, false, Option, none, some, String, List, [],
  ◌∷◌, ◌++◌, ok, err, ◌then◌, leb, if◌then◌else◌, Bool-cases, inl, inr, arith, All, length, le→leb,
  lt→ltb, str_eq_self, some-inj, none-ne-some, All-left, All-right, All-map,
}
use nexus_commerce.Errors.{Thrown, app, unauthorized_error}
use nexus_commerce.Auth.Credential.{Credential}
use nexus_commerce.Auth.Lockout.{
  max_login_attempts, lock_duration_ms, handle_failed_login, later_than, minutes_until,
}
use nexus_commerce.Auth.Lockout.Laws.{after_failure, handle_failed_login-row}
use nexus_commerce.Auth.Login.{
  AuthDeps, RequestContext, AuthResult, World, Answer, verify_credentials, verify_found, failed,
  complete_login, complete_unless, is_surface,
}
use nexus_commerce.Auth.Account.{refusal}
use nexus_commerce.Auth.Login.Locked.{
  SignIn, sign_in, sign_in_all, verify_credentials-wrong, sign_in_all-IsLocked,
}
use nexus_commerce.Auth.Login.Surfaces.{Surface, surface_name, IsServed}
use nexus_commerce.Auth.Login.Entry.{
  login, enter, login-MayLogIn, login-eq_enter, enter-served, verified-right,
}

module _ (d : AuthDeps) where
  open d use {db, redis, matches}
  open db use {Table, find_by}

  -- Sign-ins with the email at given times and with given passwords, as far as the check of the password.
  unfoldable pub guess_all : String → List (ℕ × String) → World d → World d
  guess_all email [] w = w
  guess_all email ((now, password) ∷ gs) w =
      guess_all email gs (verify_credentials d now email password w).0

  after_failure-count :
      (now : ℕ) (c : Credential)
      → ((after_failure now c).failed_login_attempts ≡ c.failed_login_attempts + 1)
        × ((after_failure now c).password ≡ c.password)
  after_failure-count now c =
      elim (Bool-cases (leb max_login_attempts (c.failed_login_attempts + 1))) [
        | inl due ↦ rw due (refl, refl)
        | inr early ↦ rw early (refl, refl)
      ]

  -- What a list of wrong passwords leaves of the account.
  guess_all-wrong :
      (email : String) (gs : List (ℕ × String)) (w : World d) (c : Credential)
      → find_by email w.credentials ≡ some c
      → All (λ g. matches g.1 c.password ≡ false) gs
      → (c' : Credential) × (find_by email (guess_all email gs w).credentials ≡ some c')
        × (c'.failed_login_attempts ≡ c.failed_login_attempts + length gs)
        × (c'.password ≡ c.password)
  unfolding guess_all
  guess_all-wrong email [] w c found wrong = (c, found, omega arith, refl)
  guess_all-wrong email ((now, password) ∷ gs) w c found wrong =
      let (count, same) = after_failure-count now c in
      let (c', found', count', same') =
        guess_all-wrong email gs (verify_credentials d now email password w).0 (after_failure now c)
          (verify_credentials-wrong d now email password w c found wrong.0) (rw same wrong.1) in
      (c', found', omega (arith, count, count'), same' ∙ same)

  guess_all-append :
      (email : String) (gs : List (ℕ × String)) (now : ℕ) (password : String) (w : World d)
      → guess_all email (gs ++ (now, password) ∷ []) w
        ≡ (verify_credentials d now email password (guess_all email gs w)).0
  unfolding guess_all
  guess_all-append email [] now password w = refl
  guess_all-append email ((at, text) ∷ gs) now password w =
      guess_all-append email gs now password (verify_credentials d at email text w).0

  -- Once the wrong passwords on record reach five, the last of them locks the account: until 15 minutes
  -- after it no sign-in succeeds on any surface, whatever password it gives, and whatever sign-ins with
  -- the email, with a right password or a wrong one, come before it in that time, one after another. The
  -- count is not taken back when a lock runs out, so that a single wrong password locks such an account
  -- again.
  pub login-locked_out :
      (email : String) (gs : List (ℕ × String)) (now : ℕ) (password : String) (w : World d)
      (c : Credential)
      → find_by email w.credentials ≡ some c
      → All (λ g. matches g.1 c.password ≡ false) (gs ++ (now, password) ∷ [])
      → 5 ≤ c.failed_login_attempts + length gs + 1
      → (before : List SignIn) (last : SignIn) (r : AuthResult)
      → All (λ q. (now ≤ q.now) × (q.now < now + 15 * 60 * 1000)) before
      → last.now < now + 15 * 60 * 1000
      → ¬ (
          (sign_in d email last
            (sign_in_all d email before (guess_all email (gs ++ (now, password) ∷ []) w))).1
          ≡ ok r)
  login-locked_out email gs now password w c found wrong many before last r within soon h =
      let Wrong = λ (g : ℕ × String). matches g.1 c.password ≡ false in
      let w1 = guess_all email gs w in
      let w2 = guess_all email (gs ++ (now, password) ∷ []) w in
      let until = now + lock_duration_ms in
      let (c1, found1, count1, same1) =
        guess_all-wrong email gs w c found (All-left Wrong gs ((now, password) ∷ []) wrong) in
      let missed : matches password c1.password ≡ false =
        ap (matches password) same1 ∙ (All-right Wrong gs ((now, password) ∷ []) wrong).0 in
      let due : leb max_login_attempts (c1.failed_login_attempts + 1) ≡ true =
        le→leb max_login_attempts (c1.failed_login_attempts + 1) (omega (arith, count1)) in
      let locked : (after_failure now c1).locked_until ≡ some until = rw due refl in
      let found2 : find_by email w2.credentials ≡ some (after_failure now c1) =
        ap (λ (w' : World d). find_by email w'.credentials)
          (guess_all-append email gs now password w)
        ∙ verify_credentials-wrong d now email password w1 c1 found1 missed in
      let (c3, until', found3, locked3, far) =
        sign_in_all-IsLocked d email until before w2
          (All-map (λ (q : SignIn). (now ≤ q.now) × (q.now < until))
            (λ (q : SignIn). (until ≤ q.now + lock_duration_ms) × (q.now < until)) before
            (λ q (after, early). (omega (arith, after), early)) within)
          (after_failure now c1, until, found2, locked, omega arith) in
      let (c4, (surface, found4, right, served, opened)) =
        login-MayLogIn d last.surface last.now last.family email last.password last.context
          (sign_in_all d email before w2) r h in
      let same4 : c3 ≡ c4 = some-inj c3 c4 (sym found3 ∙ found4) in
      let over = opened.3 until' (ap (λ (x : Credential). x.locked_until) (sym same4) ∙ locked3) in
      (let no_room : ⊥ = omega (arith, over, far, soon) in no_room)

  failed-message :
      (w : World d) (o : Table × Option Thrown)
      → o.1 ≡ none
      → (failed d w o).1 ≡ err (app (unauthorized_error "Invalid email or password"))
  failed-message w (t, none) h = refl
  failed-message w (t, some e) h = none-ne-some e _ (some e) h refl

  then-thrown :
      {A B : Type 0} (a : Answer d A) (k : A → World d → Answer d B) (e : Thrown)
      → a.1 ≡ err e
      → (a then k).1 ≡ err e
  then-thrown (w, err e') k e h = cc
  then-thrown (w, ok a) k e h = cc

  verify_credentials-wrong_message :
      (now : ℕ) (email password : String) (w : World d) (c : Credential)
      → find_by email w.credentials ≡ some c
      → matches password c.password ≡ false
      → (verify_credentials d now email password w).1
        ≡ err (app (unauthorized_error "Invalid email or password"))
  unfolding verify_credentials verify_found
  verify_credentials-wrong_message now email password w c found wrong =
      rw (found, wrong)
        (failed-message w (handle_failed_login db now c.id w.credentials)
          (handle_failed_login-row db now w.credentials email c found).1)

  refusal-locked :
      (now t : ℕ) (c : Credential)
      → c.is_deleted ≡ false
      → c.is_blocked ≡ false
      → c.is_active ≡ true
      → c.locked_until ≡ some t
      → now < t
      → refusal d.locked_text d.blocked_text now c
        ≡ some (unauthorized_error (d.locked_text (minutes_until now (some t))))
  refusal-locked now t c kept free active locked early =
      let later : later_than now c.locked_until ≡ true =
        ap (later_than now) locked ∙ lt→ltb now t early in
      ground arith

  -- While an account is locked, a sign-in on a surface that it has a role for still compares the
  -- password, and its answer says whether the guess was right: the message of the lock for the right
  -- password, the one of a wrong password otherwise.
  pub login-tells_password :
      (s : Surface) (now t : ℕ) (family email password : String) (context : RequestContext)
      (w : World d) (c : Credential)
      → context.client_type ≡ some (surface_name s)
      → find_by email w.credentials ≡ some c
      → IsServed s c.role
      → c.is_deleted ≡ false
      → c.is_blocked ≡ false
      → c.is_active ≡ true
      → c.locked_until ≡ some t
      → now < t
      → (login d s now family email password context w).1
        ≡ err (
            app (
              unauthorized_error (
                if matches password c.password
                then d.locked_text (minutes_until now (some t))
                else "Invalid email or password")))
  unfolding complete_login complete_unless
  login-tells_password s now t family email password context w c same found served kept free active
        locked early =
      let surface : is_surface (surface_name s) context.client_type ≡ true =
        ap (is_surface (surface_name s)) same ∙ str_eq_self (surface_name s) in
      let refused = refusal-locked now t c kept free active locked early in
      rw (login-eq_enter d s now family email password context w, surface)
        (elim (Bool-cases (matches password c.password)) [
          | inl right ↦
              ap (λ (a : Answer d AuthResult). a.1)
                (verified-right d s now family email password w c found right
                  ∙ enter-served d s now family c w served)
              ∙ (rw (refused, right) refl)
          | inr wrong ↦
              then-thrown (verify_credentials d now email password w)
                (λ c' w'. enter d s now family c' w')
                (app (unauthorized_error "Invalid email or password"))
                (verify_credentials-wrong_message now email password w c found wrong)
              ∙ (rw wrong refl)
        ])
