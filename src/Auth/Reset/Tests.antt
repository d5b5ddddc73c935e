-- ===== src/Auth/Reset/Tests.antt =====
-- The reset of a concrete account's password.
use nexus_commerce.Base.{
  ◌≡◌, refl, none, some, String, [], ◌∷◌, ok, err, str_eq, if◌then◌else◌, arith, inl,
}
use mathlib.Core.Option
use nexus_commerce.Redis.{function_redis}
use nexus_commerce.Prisma.Memory.{memory, empty}
use nexus_commerce.Errors.{app, bad_request_error}
use nexus_commerce.Auth.Tokens.{customer}
use nexus_commerce.Auth.Refresh.{RefreshKey, RefreshValue, same_key}
use nexus_commerce.Auth.Credential.{
  Credential, apply_update as apply_credential_update, set_password,
}
use nexus_commerce.Auth.Credential.Memory.{credential_db, account, only}
use nexus_commerce.Auth.Login.{AuthDeps, AuthResult, RequestContext}
use nexus_commerce.Auth.Login
use nexus_commerce.Auth.Login.Surfaces.{customer_web}
use nexus_commerce.Auth.Login.Entry.{login}
use nexus_commerce.Auth.Reset.{
  PasswordReset, ResetDb, ResetDeps, apply_update, World, request_password_reset,
  verify_password_reset, request_for, resolve_reset_page,
}
use nexus_commerce.Auth.Reset.Laws.{
  apply_update-id, apply_update-reset_token, IsUsable, verify_password_reset-ok,
  verify_password_reset-once,
}
use nexus_commerce.Auth.Reset.Access.{request_password_reset-login}

abbrev auth : AuthDeps
auth = record {
  db = credential_db;
  redis = function_redis RefreshKey RefreshValue same_key;
  jwt = record {
    sign = λ now c secret expires. secret;
    verify = λ now token secret. err "invalid";
    decode = λ token. none;
  };
  config = record {
    access_token_secret = "a";
    access_token_expires_in = "15m";
    refresh_token_secret = "r";
    refresh_token_expires_in = "7d";
  };
  hash = λ t. t;
  matches = λ given stored. str_eq given stored;
  surface_text = λ s. s;
  locked_text = λ n. "locked";
  blocked_text = λ t. "blocked";
}

abbrev reset_db : ResetDb
reset_db =
    memory apply_update (λ r. r.id) (λ r. r.reset_token) apply_update-id apply_update-reset_token

abbrev deps : ResetDeps
deps = record {
  auth = auth;
  resets = reset_db;
  hash_password = λ p. p;
  secret = "p";
  expires_in = "15m";
  customer_client_url = "https://shop";
  seller_client_url = "https://sell";
  admin_client_url = "https://admin";
  inherited = λ name. none;
}

abbrev ada : Credential
ada = account "c1" "ada@example.com" (customer ∷ [])

abbrev world : World deps
world = record {
  credentials = only ada;
  reset_rows =
      empty apply_update (λ r. r.id) (λ r. r.reset_token) apply_update-id apply_update-reset_token;
  outbox = [];
}

abbrev sessions : Login.World auth
sessions = record { credentials = only ada; sessions = λ k. none; audit = [] }

abbrev shop : RequestContext
shop = record { client_type = some "customer-web" }

abbrev asked : World deps
asked = (request_password_reset deps 100 "r1" "ada@example.com" none world).0

went : (request_password_reset deps 100 "r1" "ada@example.com" none world).1 ≡ ok tt
unfolding request_password_reset request_for resolve_reset_page
went = refl

request_password_reset-login_example :
    let reset = verify_password_reset deps 200 "p" "new" asked in
    (reset.1 ≡ ok tt)
    × ((r : AuthResult) × ((login auth customer_web 300 "f1" "ada@example.com" "new" shop
            (record sessions { credentials = reset.0.credentials })).1
          ≡ ok r))
request_password_reset-login_example =
    request_password_reset-login deps 100 200 300 "r1" "ada@example.com" "new" "f1" none world
      sessions ada customer_web shop refl went (omega arith) refl refl (inl refl)
      (refl, refl, refl, λ t e. cc)

verify_password_reset-ok_example :
    let after = (verify_password_reset deps 200 "p" "new" asked).0 in
    (r : PasswordReset) × (reset_db.find_by "p" asked.reset_rows ≡ some r)
    × IsUsable deps 200 r
    × ((i : String)
        → credential_db.find i after.credentials ≡ (
            if str_eq r.credential_id i
            then Option.map
                (apply_credential_update (set_password "new"))
                (credential_db.find i asked.credentials)
            else credential_db.find i asked.credentials))
verify_password_reset-ok_example =
    verify_password_reset-ok deps 200 "p" "new" asked request_password_reset-login_example.0

verify_password_reset-once_example :
    let after = (verify_password_reset deps 200 "p" "new" asked).0 in
    verify_password_reset deps 400 "p" "other" after
    ≡ (after, err (app (bad_request_error "Reset token has already been used" none)))
verify_password_reset-once_example =
    verify_password_reset-once deps 200 400 "p" "new" "other" asked
      request_password_reset-login_example.0
