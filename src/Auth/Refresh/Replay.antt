-- ===== src/Auth/Refresh/Replay.antt =====
-- A refresh token that is presented twice.
use nexus_commerce.Base.{
  ℕ, ◌+◌, ◌*◌, ◌≡◌, ◌≤◌, ◌<◌, ap, refl, ◌∙◌, false, some, String, ok, err, str_eq, str_eq_self,
}
use nexus_commerce.Redis.{RedisOps}
use nexus_commerce.Auth.Tokens.{UserRole, Claims, JwtPayload, JwtConfig, JwtOps, issue_access_token}
use nexus_commerce.Auth.Refresh.{
  RefreshKey, refresh_key, RefreshValue, parsed, same_key, Ticket, sign_refresh_token,
  finish_refresh, finish_rotated, rotate_refresh_token, refresh_token_ttl_seconds, logout,
  revoke_decoded, revoke_family_of,
}
use nexus_commerce.Auth.Refresh.Rotation.{
  lifetime, revoked, invalid, payload_of, Names, stored_hash, refreshed, refresh_token-rotates,
  stored_hash-set, stored_hash-del, refresh_token-refuses, refresh_token-revokes,
}

module _ (redis : RedisOps RefreshKey RefreshValue same_key) (jwt : JwtOps) (config : JwtConfig)
    (hash : String → String) where
  open redis use {Store, set, del}

  -- Reuse detection: after a token was rotated, presenting it again while the family lives, when its
  -- hash is not that of its successor, throws and revokes the family, so that the successor and
  -- every other token of the family is refused from then on. A digest is never the empty text.
  pub refresh_token-replay :
      (now again later : ℕ) (token other family : String) (claims : Claims) (role : UserRole)
      (s : Store)
      → ((t : String) → str_eq (hash t) "" ≡ false)
      → Names redis jwt config hash now token claims family role
      → stored_hash redis jwt config hash now claims.id family s ≡ some (hash token)
      → Names redis jwt config hash again token claims family role
      → again < now + lifetime
      → str_eq
          (hash token)
          (hash (sign_refresh_token redis jwt config hash now (payload_of claims role) family))
        ≡ false
      → Names redis jwt config hash later other claims family role
      → let s₁ = (refreshed redis jwt config hash now token s).0 in
        let s₂ = (refreshed redis jwt config hash again token s₁).0 in
        ((refreshed redis jwt config hash again token s₁).1 ≡ err revoked)
        × (refreshed redis jwt config hash later other s₂ ≡ (s₂, err invalid))
  refresh_token-replay now again later token other family claims role s digest names current names'
        before changed names'' =
      let next = sign_refresh_token redis jwt config hash now (payload_of claims role) family in
      let key = refresh_key claims.id family in
      let s' = set now key (parsed (some (hash next))) refresh_token_ttl_seconds s in
      let rotated =
        refresh_token-rotates redis jwt config hash now token family claims role s names current
          (digest token) in
      let caught =
        refresh_token-revokes redis jwt config hash again token family (hash next) claims role s'
          names'
          (stored_hash-set redis jwt config hash now again claims.id family (hash next) s before)
          (digest next) changed in
      let gone =
        refresh_token-refuses redis jwt config hash later other family claims role (del key s')
          names'' (stored_hash-del redis jwt config hash later claims.id family s') in
      rw (rotated, caught) (refl, gone)

  -- What jsonwebtoken signs depends on the time in whole seconds only.
  abbrev pub SignsBySecond : Type 0
  SignsBySecond =
      (second t t' : ℕ) (c : Claims) (secret expires_in : String)
      → (second * 1000 ≤ t) × (t < second * 1000 + 1000)
      → (second * 1000 ≤ t') × (t' < second * 1000 + 1000)
      → jwt.sign t c secret expires_in ≡ jwt.sign t' c secret expires_in

  -- A refresh in the second in which its token was signed gives back the very token that was presented,
  -- since what is signed depends on the second and the claims only; and presenting the token again, while
  -- it verifies and the family lives, is not taken for reuse, but answered with tokens. A digest is never
  -- the empty text.
  pub refresh_token-same_text :
      (second start now again : ℕ) (token family : String) (claims : Claims) (role : UserRole)
      (s : Store)
      → SignsBySecond
      → ((t : String) → str_eq (hash t) "" ≡ false)
      → (second * 1000 ≤ start) × (start < second * 1000 + 1000)
      → (second * 1000 ≤ now) × (now < second * 1000 + 1000)
      → sign_refresh_token redis jwt config hash start (payload_of claims role) family ≡ token
      → Names redis jwt config hash now token claims family role
      → stored_hash redis jwt config hash now claims.id family s ≡ some (hash token)
      → Names redis jwt config hash again token claims family role
      → again < now + lifetime
      → let after = refreshed redis jwt config hash now token s in
        (after.1
          ≡ ok (record {
            access_token = issue_access_token jwt config now (payload_of claims role);
            refresh_token = token;
            role = claims.role;
          }))
        × ((refreshed redis jwt config hash again token after.0).1
            ≡ ok (record {
              access_token = issue_access_token jwt config again (payload_of claims role);
              refresh_token =
                  sign_refresh_token redis jwt config hash again (payload_of claims role) family;
              role = claims.role;
            }))
  refresh_token-same_text second start now again token family claims role s seconds digest started
        soon signed names current names' before =
      let same : sign_refresh_token redis jwt config hash now (payload_of claims role) family
          ≡ token =
        seconds second now start _ _ _ soon started ∙ signed in
      let key = refresh_key claims.id family in
      let s' = set now key (parsed (some (hash token))) refresh_token_ttl_seconds s in
      let rotated =
        refresh_token-rotates redis jwt config hash now token family claims role s names current
          (digest token) in
      let rotated' =
        refresh_token-rotates redis jwt config hash again token family claims role s' names'
          (stored_hash-set redis jwt config hash now again claims.id family (hash token) s before)
          (digest token) in
      rw (rotated, same, rotated') (refl, refl)

  -- Two refreshes of one family that both pass the comparison before either rotates: the first to
  -- rotate gets its tokens; the second, while the family lives and unless the new token has the old
  -- hash, throws and revokes the family, so that even the tokens just handed out are refused.
  pub finish_refresh-race :
      (now now' later : ℕ) (h h' other family : String) (p p' : JwtPayload) (claims : Claims)
      (role : UserRole) (s : Store)
      → stored_hash redis jwt config hash now claims.id family s ≡ some h
      → now' < now + lifetime
      → str_eq h' (hash (sign_refresh_token redis jwt config hash now p family)) ≡ false
      → Names redis jwt config hash later other claims family role
      → let winner : Ticket = record {
        credential_id = claims.id;
        family_id = family;
        stored_hash = h;
        payload = p;
      } in
        let loser : Ticket = record {
          credential_id = claims.id;
          family_id = family;
          stored_hash = h';
          payload = p';
        } in
        let (s₁, first) = finish_refresh redis jwt config hash now winner s in
        let (s₂, second) = finish_refresh redis jwt config hash now' loser s₁ in
        (first
          ≡ ok (record {
            access_token = issue_access_token jwt config now p;
            refresh_token = sign_refresh_token redis jwt config hash now p family;
            role = p.role;
          }))
        × ((second ≡ err revoked)
            × (refreshed redis jwt config hash later other s₂ ≡ (s₂, err invalid)))
  unfolding finish_refresh finish_rotated rotate_refresh_token
  finish_refresh-race now now' later h h' other family p p' claims role s current before changed
        names =
      let next = sign_refresh_token redis jwt config hash now p family in
      let key = refresh_key claims.id family in
      let s' = set now key (parsed (some (hash next))) refresh_token_ttl_seconds s in
      let self = str_eq_self h in
      let replaced =
        stored_hash-set redis jwt config hash now now' claims.id family (hash next) s before in
      let gone =
        refresh_token-refuses redis jwt config hash later other family claims role (del key s')
          names (stored_hash-del redis jwt config hash later claims.id family s') in
      rw (current, self, replaced, changed) (refl, (refl, gone))

  -- After a logout with a token of the family, checked or not, every token of the family is refused.
  pub logout-refuses :
      (later : ℕ) (token other family : String) (decoded claims : Claims) (role : UserRole)
      (s : Store)
      → jwt.decode token ≡ some decoded
      → decoded.id ≡ claims.id
      → decoded.family_id ≡ some family
      → str_eq claims.id "" ≡ false
      → Names redis jwt config hash later other claims family role
      → let s' = logout redis jwt config hash token s in
        refreshed redis jwt config hash later other s' ≡ (s', err invalid)
  unfolding logout revoke_decoded revoke_family_of
  logout-refuses later token other family decoded claims role s read same in_family full names =
      let gone =
        refresh_token-refuses redis jwt config hash later other family claims role
          (del (refresh_key claims.id family) s) names
          (stored_hash-del redis jwt config hash later claims.id family s) in
      let full' = names.1.1.1 in
      let ended : logout redis jwt config hash token s ≡ del (refresh_key claims.id family) s =
        ap (λ o. revoke_decoded redis jwt config hash o s) read
        ∙ ap (λ o. revoke_family_of redis jwt config hash decoded.id o s) in_family
        ∙ ap (λ i. revoke_family_of redis jwt config hash i (some family) s) same
        ∙ (rw (full, full') refl) in
      rw ended gone
