-- ===== src/Auth/Refresh/Tests.antt =====
-- Refresh tokens at a concrete credential. The tokens of a test are the seconds at which they were
-- signed, in three ranges, and a digest is the token.
use nexus_commerce.Base.{
  ℕ, ◌+◌, ◌≡◌, ◌≤◌, refl, false, none, some, String, [], ◌∷◌, ok, err, str_eq, arith, ltb, leb,
  ◌&&◌, if◌then◌else◌, Bool-cases, inl, inr,
}
use nexus_commerce.Redis.{RedisOps, function_redis}
use nexus_commerce.Auth.Tokens.{
  customer, refresh, Claims, JwtPayload, JwtConfig, JwtOps, issue_access_token, verify_token,
}
use nexus_commerce.Auth.Refresh.{
  RefreshKey, refresh_key, RefreshValue, parsed, same_key, sign_refresh_token, issue_refresh_token,
}
use nexus_commerce.Auth.Refresh.Rotation.{revoked, invalid, refreshed}
use nexus_commerce.Auth.Refresh.Replay.{
  SignsBySecond, refresh_token-replay, refresh_token-same_text,
}
use nexus_commerce.Auth.Refresh.Session.{claims_of, session, session-issued}

abbrev store : RedisOps RefreshKey RefreshValue same_key
store = function_redis RefreshKey RefreshValue same_key

abbrev ada : JwtPayload
ada = record { id = "c1"; email = "ada@example.com"; role = customer ∷ []; active_role = customer }

abbrev claims : Claims
claims = claims_of ada "f1"

abbrev jwt : JwtOps
jwt = record {
  sign = λ now c secret expires.
      if ltb now 1000 then "first" else (if ltb now 2000 then "second" else "third");
  verify = λ now token secret. ok claims;
  decode = λ token. some claims;
}

abbrev config : JwtConfig
config = record {
  access_token_secret = "a";
  access_token_expires_in = "15m";
  refresh_token_secret = "r";
  refresh_token_expires_in = "7d";
}

abbrev hash : String → String
hash t = if str_eq t "" then "digest" else t

digest : (t : String) → str_eq (hash t) "" ≡ false
digest t = elim (Bool-cases (str_eq t "")) [ inl e ↦ rw e refl | inr e ↦ rw (e, e) refl ]

abbrev held : store.Store
held = store.set 10 (refresh_key "c1" "f1") (parsed (some "first")) 604800 (λ k. none)

refresh_token-replay_example :
    let s₁ = (refreshed store jwt config hash 1500 "first" held).0 in
    let s₂ = (refreshed store jwt config hash 1600 "first" s₁).0 in
    ((refreshed store jwt config hash 1600 "first" s₁).1 ≡ err revoked)
    × (refreshed store jwt config hash 1700 "second" s₂ ≡ (s₂, err invalid))
refresh_token-replay_example =
    refresh_token-replay store jwt config hash 1500 1600 1700 "first" "second" "f1" claims customer
      held digest (refl, (refl, (refl, refl))) refl (refl, (refl, (refl, refl))) (omega arith) refl
      (refl, (refl, (refl, refl)))

seconds : SignsBySecond store jwt config hash
seconds second t t' c secret expires_in in_second in_second' = ground arith

refresh_token-same_text_example :
    let after = refreshed store jwt config hash 600 "first" held in
    (after.1
      ≡ ok (record {
        access_token = issue_access_token jwt config 600 ada;
        refresh_token = "first";
        role = customer ∷ [];
      }))
    × ((refreshed store jwt config hash 700 "first" after.0).1
        ≡ ok (record {
          access_token = issue_access_token jwt config 700 ada;
          refresh_token = "first";
          role = customer ∷ [];
        }))
refresh_token-same_text_example =
    refresh_token-same_text store jwt config hash 0 100 600 700 "first" "f1" claims customer held
      seconds digest (omega arith, omega arith) (omega arith, omega arith) refl
      (refl, (refl, (refl, refl))) refl (refl, (refl, (refl, refl))) (omega arith)

-- Tokens of the first two seconds expire seven days after their second.
abbrev expiring : JwtOps
expiring = record jwt {
  verify = λ now token secret.
      if str_eq token "first" && leb 604800000 now
      then err "jwt expired"
      else (if str_eq token "second" && leb 604801000 now then err "jwt expired" else ok claims);
}

signed :
    (t now : ℕ)
    → t ≤ now
    → now + 1000 ≤ t + 604800000
    → verify_token expiring now
        (sign_refresh_token store expiring config hash t ada "f1")
        "r"
        refresh
      ≡ ok claims
signed t now after before = elim (Bool-cases (ltb t 1000)) [
  | inl e ↦ let fresh : leb 604800000 now ≡ false = ground arith in rw (e, fresh) refl
  | inr e ↦ elim (Bool-cases (ltb t 2000)) [
    | inl e' ↦ let fresh : leb 604801000 now ≡ false = ground arith in rw (e, e', fresh) refl
    | inr e' ↦ rw (e, e') refl
  ]
]

session-issued_example :
    let (s', token) = issue_refresh_token store expiring config hash 10 ada "c1" "f1" (λ k. none) in
    (token' : String) × ((session store expiring config hash
        (500 ∷ 1500 ∷ 604800000 ∷ [])
        token
        s').1
      ≡ ok token')
session-issued_example =
    session-issued store expiring config hash 10 (500 ∷ 1500 ∷ 604800000 ∷ []) ada "f1" (λ k. none)
      signed digest refl
      ((omega arith, omega arith), ((omega arith, omega arith), ((omega arith, omega arith), tt)))
