-- ===== src/Auth/Restore/Tests.antt =====
-- The restore of a concrete account.
use nexus_commerce.Base.{ℕ, ◌≡◌, refl, true, none, some, String, List, [], ◌∷◌, ok, arith}
use nexus_commerce.Redis.{function_redis}
use nexus_commerce.Auth.Tokens.{customer}
use nexus_commerce.Auth.Credential.{Credential}
use nexus_commerce.Auth.Credential.Memory.{credential_db, account, only}
use nexus_commerce.Auth.Restore.{
  RestoreKey, restore_key, same_key, RestoreDeps, World, request_account_restore,
  verify_account_restore,
}
use nexus_commerce.Auth.Restore.Laws.{
  guess_all, request_account_restore-opens, verify_account_restore-ok,
}

abbrev deps : RestoreDeps
deps = record {
  db = credential_db;
  redis = function_redis RestoreKey String same_key;
  hmac = λ otp. otp;
  bytes = λ hex. hex;
}

abbrev ada : Credential
ada = record (account "c1" "ada@example.com" (customer ∷ [])) {
  is_deleted = true;
  deleted_at = some 1000;
}

abbrev world : World deps
world = record { credentials = only ada; codes = λ k. none; outbox = [] }

abbrev guesses : List (ℕ × String)
guesses = (6000, "000000") ∷ (7000, "111111") ∷ (8000, "222222") ∷ (9000, "333333") ∷ []

abbrev tried : World deps
tried =
    guess_all deps "ada@example.com" guesses
      (request_account_restore deps 5000 "ada@example.com" "123456" world)

request_account_restore-opens_example :
    let requested = request_account_restore deps 5000 "ada@example.com" "123456" world in
    (tried ≡ requested)
    × ((verify_account_restore deps 10000 "ada@example.com" "123456" none tried).1 ≡ ok tt)
request_account_restore-opens_example =
    request_account_restore-opens deps 5000 1000 10000 "ada@example.com" "123456" ada guesses world
      refl refl refl (omega arith) refl (refl, (refl, (refl, (refl, tt)))) (omega arith)

verify_account_restore-ok_example :
    (c : Credential) × (stored : String) × (credential_db.find_by "ada@example.com"
        tried.credentials
      ≡ some c)
    × (c.is_deleted ≡ true)
    × (deps.redis.get 10000 (restore_key c.id) tried.codes ≡ some stored)
    × ("123456" ≡ stored)
    × ((later : ℕ)
        → deps.redis.get later
            (restore_key c.id)
            (verify_account_restore deps 10000 "ada@example.com" "123456" none tried).0.codes
          ≡ none)
verify_account_restore-ok_example =
    verify_account_restore-ok deps 10000 "ada@example.com" "123456" none tried
      request_account_restore-opens_example.1
