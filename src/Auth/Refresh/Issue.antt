-- ===== src/Auth/Refresh/Issue.antt =====
-- What a freshly issued refresh token leaves in Redis.
use nexus_commerce.Base.{
  ℕ, ◌+◌, ◌*◌, ◌≡◌, refl, ap, ◌∙◌, false, some, String, leb, str_eq_self, arith, lt→leb,
}
use nexus_commerce.Redis.{RedisOps, live}
use nexus_commerce.Auth.Tokens.{JwtPayload, JwtConfig, JwtOps}
use nexus_commerce.Auth.Refresh.{
  RefreshKey, refresh_key, RefreshValue, parsed, same_key, token_hash_of, sign_refresh_token,
  issue_refresh_token, find_active_token_hash, refresh_token_ttl_seconds,
}

module _ (redis : RedisOps RefreshKey RefreshValue same_key) (jwt : JwtOps) (config : JwtConfig)
    (hash : String → String) where
  open redis use {Store, entry, get, set, get-eq-live, entry-set}

  pub issue_refresh_token-text :
      (now : ℕ) (p : JwtPayload) (id family : String) (s : Store)
      → (issue_refresh_token redis jwt config hash now p id family s).1
        ≡ sign_refresh_token redis jwt config hash now p family
  unfolding issue_refresh_token
  issue_refresh_token-text now p id family s = refl

  pub issue_refresh_token-hash :
      (now : ℕ) (p : JwtPayload) (id family : String) (s : Store)
      → let issued = issue_refresh_token redis jwt config hash now p id family s in
        find_active_token_hash redis jwt config hash now id family issued.0 ≡ some (hash issued.1)
  unfolding issue_refresh_token
  issue_refresh_token-hash now p id family s =
      let token = sign_refresh_token redis jwt config hash now p family in
      let k = refresh_key id family in
      let v = parsed (some (hash token)) in
      let later : leb (now + refresh_token_ttl_seconds * 1000) now ≡ false =
        lt→leb (now + refresh_token_ttl_seconds * 1000) now (omega arith) in
      let there : entry k (set now k v refresh_token_ttl_seconds s)
          ≡ some (v, now + refresh_token_ttl_seconds * 1000) =
        entry-set now k v refresh_token_ttl_seconds s k
        ∙ (let self = str_eq_self id in let self' = str_eq_self family in rw (self, self') refl) in
      let alive : live now (some (v, now + refresh_token_ttl_seconds * 1000)) ≡ some v =
        rw later refl in
      ap token_hash_of
        (get-eq-live now k (set now k v refresh_token_ttl_seconds s) ∙ ap (live now) there ∙ alive)
