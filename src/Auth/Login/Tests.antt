-- ===== src/Auth/Login/Tests.antt =====
-- Sign-ins at a concrete account.
use nexus_commerce.Base.{
  ℕ, ◌≡◌, refl, none, some, String, List, [], ◌∷◌, ◌++◌, ok, err, str_eq, arith, inl,
}
use nexus_commerce.Redis.{function_redis}
use nexus_commerce.Errors.{app, unauthorized_error}
use nexus_commerce.Auth.Tokens.{customer, issue_access_token}
use nexus_commerce.Auth.Refresh.{RefreshKey, RefreshValue, same_key, find_active_token_hash}
use nexus_commerce.Auth.Credential.{Credential, apply_update, reset_attempts}
use nexus_commerce.Auth.Credential.Memory.{credential_db, account, only}
use nexus_commerce.Auth.Login.{AuthDeps, RequestContext, AuthResult, World, payload_of}
use nexus_commerce.Auth.Login.Surfaces.{customer_web}
use nexus_commerce.Auth.Login.Entry.{login, MayLogIn, login-MayLogIn, login-session}
use nexus_commerce.Auth.Login.Locked.{SignIn, sign_in, sign_in_all}
use nexus_commerce.Auth.Login.Guessing.{guess_all, login-locked_out, login-tells_password}

abbrev deps : AuthDeps
deps = record {
  db = credential_db;
  redis = function_redis RefreshKey RefreshValue same_key;
  jwt = record {
    sign = λ now c secret expires. secret;
    verify = λ now token secret. err "invalid";
    decode = λ token. none;
  };
  config = record {
    access_token_secret = "a";
    access_token_expires_in = "15m";
    refresh_token_secret = "r";
    refresh_token_expires_in = "7d";
  };
  hash = λ t. t;
  matches = λ given stored. str_eq given stored;
  surface_text = λ s. s;
  locked_text = λ n. "locked";
  blocked_text = λ t. "blocked";
}

abbrev ada : Credential
ada = account "c1" "ada@example.com" (customer ∷ [])

abbrev world : World deps
world = record { credentials = only ada; sessions = λ k. none; audit = [] }

abbrev shop : RequestContext
shop = record { client_type = some "customer-web" }

may_log_in : MayLogIn deps customer_web 100 "ada@example.com" "right" shop world ada
may_log_in = (refl, refl, refl, inl refl, (refl, refl, refl, λ t e. cc))

abbrev session : AuthResult
session = record {
  id = "c1";
  email = "ada@example.com";
  role = customer ∷ [];
  access_token = issue_access_token deps.jwt deps.config 100 (payload_of deps ada customer);
  refresh_token = "r";
}

login-session_example :
    let after = login deps customer_web 100 "f1" "ada@example.com" "right" shop world in
    (after.1 ≡ ok session)
    × (find_active_token_hash deps.redis deps.jwt deps.config deps.hash 100 "c1" "f1"
          after.0.sessions
        ≡ some "r")
    × (credential_db.find_by "ada@example.com" after.0.credentials
        ≡ some (apply_update (reset_attempts 100) ada))
login-session_example =
    login-session deps customer_web 100 "f1" "ada@example.com" "right" shop world ada may_log_in

login-MayLogIn_example :
    (c : Credential) × MayLogIn deps customer_web 100 "ada@example.com" "right" shop world c
login-MayLogIn_example =
    login-MayLogIn deps customer_web 100 "f1" "ada@example.com" "right" shop world session
      (login-session deps customer_web 100 "f1" "ada@example.com" "right" shop world ada
        may_log_in).0

abbrev guesses : List (ℕ × String)
guesses = (1, "a") ∷ (2, "b") ∷ (3, "c") ∷ (4, "d") ∷ []

-- A sign-in with the right password, at a time while the account is locked.
abbrev right_at : ℕ → SignIn
right_at now = record {
  surface = customer_web;
  now = now;
  family = "f1";
  password = "right";
  context = shop;
}

login-locked_out_example : ¬ (
    (sign_in deps "ada@example.com" (right_at 100) (
      sign_in_all deps "ada@example.com"
        (right_at 50 ∷ [])
        (guess_all deps "ada@example.com" (guesses ++ (5, "e") ∷ []) world))).1
    ≡ ok session)
login-locked_out_example =
    login-locked_out deps "ada@example.com" guesses 5 "e" world ada refl
      (refl, (refl, (refl, (refl, (refl, tt))))) (omega arith) (right_at 50 ∷ []) (right_at 100)
      session ((omega arith, omega arith), tt) (omega arith)

abbrev locked : Credential
locked = record ada { locked_until = some 500000; failed_login_attempts = 5 }

login-tells_password_example :
    (login deps customer_web 100 "f1" "ada@example.com" "right" shop
      (record world { credentials = only locked })).1
    ≡ err (app (unauthorized_error "locked"))
login-tells_password_example =
    login-tells_password deps customer_web 100 500000 "f1" "ada@example.com" "right" shop
      (record world { credentials = only locked }) locked refl refl (inl refl) refl refl refl refl
      (omega arith)
