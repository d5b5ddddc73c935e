-- ===== src/Auth/Login/Locked.antt =====
-- Sign-ins to an account while it is locked: none of them opens it or takes the lock off.
use nexus_commerce.Base.{
  ℕ, ◌+◌, ◌≡◌, ◌≤◌, ◌<◌, refl, sym, ap, ◌∙◌, false, Option, none, some, String, List, [], ◌∷◌,
  ◌then◌, leb, if◌then◌else◌, Bool-cases, inl, inr, arith, All,
}
use mathlib.Core.Path.{subst}
use nexus_commerce.Errors.{AppError, Thrown}
use nexus_commerce.Auth.Tokens.{UserRole, customer, seller}
use nexus_commerce.Auth.Credential.{Credential, has_role}
use nexus_commerce.Auth.Account.{refusal, some_admin_role, admin_active_role}
use nexus_commerce.Auth.Lockout.{max_login_attempts, lock_duration_ms, handle_failed_login}
use nexus_commerce.Auth.Lockout.Laws.{after_failure, handle_failed_login-row}
use nexus_commerce.Auth.Login.{
  AuthDeps, RequestContext, AuthResult, World, Answer, verify_credentials, verify_found, failed,
  complete_login, complete_unless, is_surface, is_present, enter_customer, enter_seller,
  enter_admin,
}
use nexus_commerce.Auth.Login.Surfaces.{
  Surface, customer_web, seller_web, admin_web, surface_name, refusal-IsOpen,
}
use nexus_commerce.Auth.Login.Entry.{login, enter, login-eq_enter, verified-right}

-- A sign-in: the surface, the time, the id of a new family, the password and the request.
pub record SignIn : Type 0 where
  pub surface : Surface
  pub now : ℕ
  pub family : String
  pub password : String
  pub context : RequestContext

module _ (d : AuthDeps) where
  open d use {db, matches, locked_text, blocked_text}
  open db use {Table, find_by}

  abbrev pub sign_in : String → SignIn → World d → Answer d AuthResult
  sign_in email q w = login d q.surface q.now q.family email q.password q.context w

  -- Sign-ins with one email, one after another.
  unfoldable pub sign_in_all : String → List SignIn → World d → World d
  sign_in_all email [] w = w
  sign_in_all email (q ∷ qs) w = sign_in_all email qs (sign_in email q w).0

  -- The account is locked until `until` at least.
  abbrev pub IsLocked : String → ℕ → Table → Type 0
  IsLocked email until t =
      (c : Credential) × (until' : ℕ) × (find_by email t ≡ some c)
      × (c.locked_until ≡ some until')
      × (until ≤ until')

  complete_unless-kept :
      (now : ℕ) (family : String) (c : Credential) (active : UserRole) (o : Option AppError)
      (w : World d)
      → ¬ (o ≡ none)
      → (complete_unless d now family c active o w).0 ≡ w
  unfolding complete_unless
  complete_unless-kept now family c active none w refused = absurd (refused refl)
  complete_unless-kept now family c active (some e) w refused = refl

  -- A right password on a locked account leaves every account as it was.
  enter-kept :
      (s : Surface) (now : ℕ) (family : String) (c : Credential) (w : World d)
      → ¬ (refusal locked_text blocked_text now c ≡ none)
      → (enter d s now family c w).0.credentials ≡ w.credentials
  unfolding enter_customer enter_seller enter_admin complete_login
  enter-kept customer_web now family c w refused =
      let kept = complete_unless-kept now family c customer _ w refused in
      elim (Bool-cases (has_role customer c.role)) [
        | inl yes' ↦ rw yes' (ap (λ (v : World d). v.credentials) kept)
        | inr no' ↦ rw no' refl
      ]
  enter-kept seller_web now family c w refused =
      let kept = complete_unless-kept now family c seller _ w refused in
      elim (Bool-cases (has_role seller c.role)) [
        | inl yes' ↦ rw yes' (ap (λ (v : World d). v.credentials) kept)
        | inr no' ↦ rw no' refl
      ]
  enter-kept admin_web now family c w refused =
      let kept = complete_unless-kept now family c (admin_active_role c.role) _ w refused in
      elim (Bool-cases (some_admin_role c.role)) [
        | inl yes' ↦ rw yes' (ap (λ (v : World d). v.credentials) kept)
        | inr no' ↦ rw no' refl
      ]

  failed-row :
      (email : String) (c : Credential) (w : World d) (o : Table × Option Thrown)
      → find_by email o.0 ≡ some c
      → find_by email (failed d w o).0.credentials ≡ some c
  failed-row email c w (t, none) h = h
  failed-row email c w (t, some e) h = h

  -- A wrong password: the row is counted up, the rest stays.
  pub verify_credentials-wrong :
      (now : ℕ) (email password : String) (w : World d) (c : Credential)
      → find_by email w.credentials ≡ some c
      → matches password c.password ≡ false
      → find_by email (verify_credentials d now email password w).0.credentials
        ≡ some (after_failure now c)
  unfolding verify_credentials verify_found
  verify_credentials-wrong now email password w c found wrong =
      rw (found, wrong)
        (failed-row email (after_failure now c) w (handle_failed_login db now c.id w.credentials)
          (handle_failed_login-row db now w.credentials email c found).0)

  failed-throws :
      {A : Type 0} (w : World d) (o : Table × Option Thrown) (k : Credential → World d → Answer d A)
      → (failed d w o then k).0 ≡ (failed d w o).0
  failed-throws w (t, none) k = refl
  failed-throws w (t, some e) k = refl

  verified-wrong :
      {A : Type 0} (now : ℕ) (email password : String) (w : World d) (c : Credential)
      (k : Credential → World d → Answer d A)
      → find_by email w.credentials ≡ some c
      → matches password c.password ≡ false
      → (verify_credentials d now email password w then k).0
        ≡ (verify_credentials d now email password w).0
  unfolding verify_credentials verify_found
  verified-wrong now email password w c k found wrong =
      rw (found, wrong) (failed-throws w (handle_failed_login db now c.id w.credentials) k)

  after_failure-until :
      (now until until' : ℕ) (c : Credential)
      → c.locked_until ≡ some until'
      → until ≤ until'
      → until ≤ now + lock_duration_ms
      → (t : ℕ) × ((after_failure now c).locked_until ≡ some t) × (until ≤ t)
  after_failure-until now until until' c locked far near =
      elim (Bool-cases (leb max_login_attempts (c.failed_login_attempts + 1))) [
        | inl due ↦ (now + lock_duration_ms, rw due refl, near)
        | inr early ↦ (until', rw early locked, far)
      ]

  -- A sign-in at a time before the end of the lock keeps the account locked until then.
  sign_in-IsLocked :
      (email : String) (until : ℕ) (q : SignIn) (w : World d)
      → q.now < until
      → until ≤ q.now + lock_duration_ms
      → IsLocked email until w.credentials
      → IsLocked email until (sign_in email q w).0.credentials
  sign_in-IsLocked email until q w early near (c, until', found, locked, far) =
      let here = login-eq_enter d q.surface q.now q.family email q.password q.context w in
      let k = λ (c' : Credential) (w' : World d). enter d q.surface q.now q.family c' w' in
      let refused : ¬ (refusal locked_text blocked_text q.now c ≡ none) = λ open'.
        let over = (refusal-IsOpen locked_text blocked_text q.now c open').3 until' locked in
        (let no_room : ⊥ = omega (arith, over, far, early) in no_room) in
      elim (Bool-cases (is_surface (surface_name q.surface) q.context.client_type)) [
        | inr other ↦ elim (Bool-cases (is_present q.context.client_type)) [
          | inl given ↦ rw (here, other, given) (c, until', found, locked, far)
          | inr absent ↦ rw (here, other, absent) (c, until', found, locked, far)
        ]
        | inl same ↦
            rw (here, same)
              (elim (Bool-cases (matches q.password c.password)) [
                | inl right ↦
                    subst (IsLocked email until)
                      (sym (
                        ap (λ (a : Answer d AuthResult). a.0.credentials)
                          (verified-right d q.surface q.now q.family email q.password w c found
                            right)
                        ∙ enter-kept q.surface q.now q.family c w refused))
                      (c, until', found, locked, far)
                | inr wrong ↦
                    let (t, locked', far') =
                      after_failure-until q.now until until' c locked far near in
                    subst (λ (v : World d). IsLocked email until v.credentials)
                      (sym (verified-wrong q.now email q.password w c k found wrong))
                      (
                        after_failure q.now c,
                        t,
                        verify_credentials-wrong q.now email q.password w c found wrong,
                        locked',
                        far',
                      )
              ])
      ]

  pub sign_in_all-IsLocked :
      (email : String) (until : ℕ) (qs : List SignIn) (w : World d)
      → All (λ q. (until ≤ q.now + lock_duration_ms) × (q.now < until)) qs
      → IsLocked email until w.credentials
      → IsLocked email until (sign_in_all email qs w).credentials
  unfolding sign_in_all
  sign_in_all-IsLocked email until [] w within locked = locked
  sign_in_all-IsLocked email until (q ∷ qs) w within locked =
      sign_in_all-IsLocked email until qs (sign_in email q w).0 within.1
        (sign_in-IsLocked email until q w within.0.1 within.0.0 locked)
