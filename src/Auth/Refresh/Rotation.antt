-- ===== src/Auth/Refresh/Rotation.antt =====
-- What a refresh does to the family of its token.
use nexus_commerce.Base.{
  ℕ, ◌+◌, ◌*◌, ◌≡◌, ◌<◌, ap, refl, ◌∙◌, true, false, Option, none, some, String, Result, ok, err,
  str_eq, str_eq_self, lt→leb,
}
use nexus_commerce.Redis.{RedisOps, live}
use nexus_commerce.Auth.Tokens.{
  UserRole, Claims, JwtPayload, JwtConfig, JwtOps, AuthError, unauthorized, verify_token,
  issue_access_token, refresh,
}
use nexus_commerce.Auth.Refresh.{
  RefreshKey, refresh_key, RefreshValue, parsed, same_key, TokenRefreshResult, token_hash_of,
  sign_refresh_token, find_active_token_hash, rotate_refresh_token, compare_hash, look_up,
  look_up_family, begin_refresh, finish_rotated, finish_refresh, resume, refresh_token,
  refresh_token_ttl_seconds,
}

abbrev pub lifetime : ℕ
lifetime = refresh_token_ttl_seconds * 1000

abbrev pub revoked : AuthError
revoked = unauthorized "Refresh token has been revoked"

abbrev pub invalid : AuthError
invalid = unauthorized "Invalid refresh token"

-- What the claims of a refresh token carry over into the next.
abbrev pub payload_of : Claims → UserRole → JwtPayload
payload_of claims role = record {
  id = claims.id;
  email = claims.email;
  role = claims.role;
  active_role = role;
}

module _ (redis : RedisOps RefreshKey RefreshValue same_key) (jwt : JwtOps) (config : JwtConfig)
    (hash : String → String) where
  open redis use {Store, entry, get, set, del, get-eq-live, entry-set, entry-del}

  -- The token verifies at a time as a refresh token of the family, with an active role.
  abbrev pub Names : ℕ → String → Claims → String → UserRole → Type 0
  Names now token claims family role =
      (verify_token jwt now token config.refresh_token_secret refresh ≡ ok claims)
      × ((claims.family_id ≡ some family)
          × ((claims.active_role ≡ some role) × (str_eq family "" ≡ false)))

  abbrev pub stored_hash : ℕ → String → String → Store → Option String
  stored_hash now id family s = find_active_token_hash redis jwt config hash now id family s

  abbrev pub refreshed : ℕ → String → Store → Store × Result AuthError TokenRefreshResult
  refreshed now token s = refresh_token redis jwt config hash now token s

  begin_refresh-eq :
      (now : ℕ) (token family : String) (claims : Claims) (role : UserRole) (s : Store)
      → Names now token claims family role
      → begin_refresh redis jwt config hash now token s
        ≡ compare_hash redis jwt config hash token claims family role
            (stored_hash now claims.id family s)
            s
  unfolding begin_refresh look_up look_up_family
  begin_refresh-eq now token family claims role s (verified, (in_family, (active, full))) =
      ap (λ r. look_up redis jwt config hash now token r s) verified
      ∙ ap (λ o. look_up_family redis jwt config hash now token claims o claims.active_role s)
          in_family
      ∙ ap (λ o. look_up_family redis jwt config hash now token claims (some family) o s) active
      ∙ (rw full refl)

  -- A refresh of the current token of a family gives an access token and a new refresh token, whose
  -- hash replaces the old one for another seven days.
  pub refresh_token-rotates :
      (now : ℕ) (token family : String) (claims : Claims) (role : UserRole) (s : Store)
      → Names now token claims family role
      → stored_hash now claims.id family s ≡ some (hash token)
      → str_eq (hash token) "" ≡ false
      → let next = sign_refresh_token redis jwt config hash now (payload_of claims role) family in
        refreshed now token s ≡ (
          set now
              (refresh_key claims.id family)
              (parsed (some (hash next)))
              refresh_token_ttl_seconds
              s,
          ok (record {
            access_token = issue_access_token jwt config now (payload_of claims role);
            refresh_token = next;
            role = claims.role;
          }),
        )
  unfolding refresh_token resume finish_refresh finish_rotated compare_hash rotate_refresh_token
  refresh_token-rotates now token family claims role s names current full =
      let self = str_eq_self (hash token) in
      rw (begin_refresh-eq now token family claims role s names, current, full, self, current, self)
        refl

  key_self : (id family : String) → same_key (refresh_key id family) (refresh_key id family) ≡ true
  key_self id family =
      let self = str_eq_self id in let self' = str_eq_self family in rw (self, self') refl

  pub stored_hash-set :
      (now later : ℕ) (id family h : String) (s : Store)
      → later < now + lifetime
      → stored_hash later id family
          (set now (refresh_key id family) (parsed (some h)) refresh_token_ttl_seconds s)
        ≡ some h
  stored_hash-set now later id family h s before =
      let key = refresh_key id family in
      let s' = set now key (parsed (some h)) refresh_token_ttl_seconds s in
      let self = key_self id family in
      let alive = lt→leb (now + lifetime) later before in
      let kept : entry key s' ≡ some (parsed (some h), now + lifetime) =
        rw self at (entry-set now key (parsed (some h)) refresh_token_ttl_seconds s key) in
      let found : get later key s' ≡ some (parsed (some h)) =
        get-eq-live later key s' ∙ ap (live later) kept ∙ rw alive refl in
      ap token_hash_of found

  pub stored_hash-del :
      (later : ℕ) (id family : String) (s : Store)
      → stored_hash later id family (del (refresh_key id family) s) ≡ none
  stored_hash-del later id family s =
      let key = refresh_key id family in
      let self = key_self id family in
      let gone : entry key (del key s) ≡ none = rw self at (entry-del key s key) in
      let found : get later key (del key s) ≡ none =
        get-eq-live later key (del key s) ∙ ap (live later) gone in
      ap token_hash_of found

  pub refresh_token-refuses :
      (now : ℕ) (token family : String) (claims : Claims) (role : UserRole) (s : Store)
      → Names now token claims family role
      → stored_hash now claims.id family s ≡ none
      → refreshed now token s ≡ (s, err invalid)
  unfolding refresh_token resume compare_hash
  refresh_token-refuses now token family claims role s names gone =
      rw (begin_refresh-eq now token family claims role s names, gone) refl

  pub refresh_token-revokes :
      (now : ℕ) (token family h : String) (claims : Claims) (role : UserRole) (s : Store)
      → Names now token claims family role
      → stored_hash now claims.id family s ≡ some h
      → str_eq h "" ≡ false
      → str_eq (hash token) h ≡ false
      → refreshed now token s ≡ (del (refresh_key claims.id family) s, err revoked)
  unfolding refresh_token resume compare_hash
  refresh_token-revokes now token family h claims role s names current full other =
      rw (begin_refresh-eq now token family claims role s names, current, full, other) refl
