-- ===== src/Auth/Refresh/Session.antt =====
-- A session that keeps presenting its latest refresh token.
use nexus_commerce.Base.{
  ℕ, ◌+◌, ◌≡◌, ◌≤◌, ◌<◌, ap, refl, ◌∙◌, false, some, String, List, [], ◌∷◌, Result, ok, err, str_eq,
  arith,
}
use nexus_commerce.Redis.{RedisOps}
use nexus_commerce.Auth.Tokens.{
  Claims, JwtPayload, JwtConfig, JwtOps, AuthError, verify_token, refresh,
}
use nexus_commerce.Auth.Refresh.{
  RefreshKey, refresh_key, RefreshValue, parsed, same_key, TokenRefreshResult, sign_refresh_token,
  issue_refresh_token, refresh_token_ttl_seconds,
}
use nexus_commerce.Auth.Refresh.Rotation.{
  lifetime, stored_hash, refreshed, refresh_token-rotates, stored_hash-set,
}

-- The claims that `signRefreshToken` signs.
abbrev pub claims_of : JwtPayload → String → Claims
claims_of p family = record {
  id = p.id;
  role = p.role;
  email = p.email;
  active_role = some p.active_role;
  family_id = some family;
  token_type = some refresh;
}

-- The times of the refreshes, each at least a second less than seven days after the one before.
abbrev pub IsTimely : ℕ → List ℕ → Type 0
IsTimely last [] = Unit
IsTimely last (now ∷ times) = ((last ≤ now) × (now + 1000 ≤ last + lifetime)) × IsTimely now times

module _ (redis : RedisOps RefreshKey RefreshValue same_key) (jwt : JwtOps) (config : JwtConfig)
    (hash : String → String) where
  open redis use {Store, set}

  abbrev pub continue :
      (String → Store → Store × Result AuthError String)
      → Store × Result AuthError TokenRefreshResult
      → Store × Result AuthError String
  continue next (s, err e) = (s, err e)
  continue next (s, ok r) = next r.refresh_token s

  -- The last token, or what the first refresh that fails throws.
  unfoldable pub session : List ℕ → String → Store → Store × Result AuthError String
  session [] token s = (s, ok token)
  session (now ∷ times) token s =
      continue (λ t s'. session times t s') (refreshed redis jwt config hash now token s)

  abbrev Verifies : JwtPayload → String → Type 0
  Verifies p family =
      (t now : ℕ)
      → t ≤ now
      → now + 1000 ≤ t + lifetime
      → verify_token jwt now (sign_refresh_token redis jwt config hash t p family)
          config.refresh_token_secret refresh
        ≡ ok (claims_of p family)

  session-lives :
      (last : ℕ) (times : List ℕ) (p : JwtPayload) (family : String) (s : Store)
      → Verifies p family
      → ((t : String) → str_eq (hash t) "" ≡ false)
      → str_eq family "" ≡ false
      → IsTimely last times
      → let token = sign_refresh_token redis jwt config hash last p family in
        ((now : ℕ)
          → now < last + lifetime
          → stored_hash redis jwt config hash now p.id family s ≡ some (hash token))
        → (token' : String) × ((session times token s).1 ≡ ok token')
  unfolding session
  session-lives last [] p family s verifies digest full timely current =
      (sign_refresh_token redis jwt config hash last p family, refl)
  session-lives last (now ∷ times) p family s verifies digest full ((after, before), timely)
        current =
      let token = sign_refresh_token redis jwt config hash last p family in
      let next = sign_refresh_token redis jwt config hash now p family in
      let s' =
        set now (refresh_key p.id family) (parsed (some (hash next))) refresh_token_ttl_seconds s in
      let rotated =
        refresh_token-rotates redis jwt config hash now token family (claims_of p family)
          p.active_role s (verifies last now after before, (refl, (refl, full)))
          (current now (omega (arith, before))) (digest token) in
      let (token', lives) =
        session-lives now times p family s' verifies digest full timely
          (λ t in'. stored_hash-set redis jwt config hash now t p.id family (hash next) s in') in
      (token', ap (λ r. (continue (λ t s₁. session times t s₁) r).1) rotated ∙ lives)

  -- A session issued to a credential goes on for ever if each refresh presents the latest token at least
  -- a second less than seven days after the one before: none of them fails. `signed` is what jsonwebtoken
  -- promises of a token that expires in seven days, counted in whole seconds from the second in which it
  -- was signed: it verifies until a second less than seven days after its signing. `digest` says that a
  -- digest is never the empty text.
  pub session-issued :
      (start : ℕ) (times : List ℕ) (p : JwtPayload) (family : String) (s : Store)
      (signed : (t now : ℕ)
        → t ≤ now
        → now + 1000 ≤ t + lifetime
        → verify_token jwt now
            (sign_refresh_token redis jwt config hash t p family)
            config.refresh_token_secret
            refresh
          ≡ ok (claims_of p family))
      (digest : (t : String) → str_eq (hash t) "" ≡ false)
      → str_eq family "" ≡ false
      → IsTimely start times
      → let (s', token) = issue_refresh_token redis jwt config hash start p p.id family s in
        (token' : String) × ((session times token s').1 ≡ ok token')
  unfolding issue_refresh_token
  session-issued start times p family s signed digest full timely =
      let token = sign_refresh_token redis jwt config hash start p family in
      session-lives start times p family
        (set start (refresh_key p.id family) (parsed (some (hash token))) refresh_token_ttl_seconds
          s)
        signed digest full timely
        (λ t in'. stored_hash-set redis jwt config hash start t p.id family (hash token) s in')
