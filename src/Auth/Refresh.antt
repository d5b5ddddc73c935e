-- ===== src/Auth/Refresh.antt =====
-- services/auth-service/src/repositories/refreshToken.ts and the refresh and logout of
-- modules/auth/auth.service.ts. `hash` stands for the hex digest of SHA-256.
pub mod Issue
pub mod Rotation
pub mod Session
mod Tests
pub mod Replay
use nexus_commerce.Base.{
  ℕ, ◌*◌, ◌≡◌, Bool, true, false, not, ◌&&◌, ◌||◌, Option, none, some, String, List, Result, ok,
  err, str_eq, if◌then◌else◌,
}
use nexus_commerce.Redis.{RedisOps}
use nexus_commerce.Auth.Tokens.{
  UserRole, Claims, JwtPayload, JwtConfig, JwtOps, AuthError, unauthorized, verify_token,
  issue_access_token, refresh,
}

pub data RefreshKey : Type 0 where
  refresh_key : String → String → RefreshKey

abbrev pub same_key : RefreshKey → RefreshKey → Bool
same_key (refresh_key c f) (refresh_key c' f') = str_eq c c' && str_eq f f'

-- The JSON text under a key, by what parsing it gives: an object with its `tokenHash`, if it has one
-- (`createdAt` is never read), or an error.
pub data RefreshValue : Type 0 where
  parsed : Option String → RefreshValue
  corrupt : RefreshValue

abbrev pub refresh_token_ttl_seconds : ℕ
refresh_token_ttl_seconds = 7 * 24 * 60 * 60

-- `parsed.tokenHash ?? null` in the `try` of `findActiveTokenHash`
abbrev pub token_hash_of : Option RefreshValue → Option String
token_hash_of none = none
token_hash_of (some corrupt) = none
token_hash_of (some (parsed h)) = h

abbrev pub is_hash : String → Option String → Bool
is_hash h none = false
is_hash h (some h') = str_eq h h'

-- What a refresh has found once it has compared the hashes: the arguments of the rotation.
pub record Ticket : Type 0 where
  pub credential_id : String
  pub family_id : String
  pub stored_hash : String
  pub payload : JwtPayload

-- `ITokenRefreshResult`
pub record TokenRefreshResult : Type 0 where
  pub access_token : String
  pub refresh_token : String
  pub role : List UserRole

module _ (redis : RedisOps RefreshKey RefreshValue same_key) (jwt : JwtOps) (config : JwtConfig)
    (hash : String → String) where
  open redis use {Store, get, set, del}

  -- `signRefreshToken`
  abbrev pub sign_refresh_token : ℕ → JwtPayload → String → String
  sign_refresh_token now p family_id =
      jwt.sign now
        (record {
          id = p.id;
          role = p.role;
          email = p.email;
          active_role = some p.active_role;
          family_id = some family_id;
          token_type = some refresh;
        })
        config.refresh_token_secret config.refresh_token_expires_in

  -- `issueRefreshToken`, with the family that `randomUUID` gave
  pub issue_refresh_token : ℕ → JwtPayload → String → String → Store → Store × String
  issue_refresh_token now p credential_id family s =
      let token = sign_refresh_token now p family in
      (
        set now (refresh_key credential_id family) (parsed (some (hash token)))
            refresh_token_ttl_seconds s,
        token,
      )

  -- `findActiveTokenHash`
  abbrev pub find_active_token_hash : ℕ → String → String → Store → Option String
  find_active_token_hash now credential_id family_id s =
      token_hash_of (get now (refresh_key credential_id family_id) s)

  -- `rotateRefreshToken`, with ROTATE_SCRIPT as one step
  pub rotate_refresh_token :
      ℕ → String → String → String → JwtPayload → Store → Store × Option String
  rotate_refresh_token now credential_id family_id expected p s =
      let token = sign_refresh_token now p family_id in
      if is_hash expected (find_active_token_hash now credential_id family_id s)
      then (
        set now (refresh_key credential_id family_id) (parsed (some (hash token)))
            refresh_token_ttl_seconds s,
        some token,
      )
      else (s, none)

  -- `revokeTokenFamily`
  abbrev pub revoke_token_family : String → String → Store → Store
  revoke_token_family credential_id family_id s = del (refresh_key credential_id family_id) s

  -- `refreshToken`, step 3: the stored hash, if there is one that is not empty, is compared.
  pub compare_hash :
      String → Claims → String → UserRole → Option String → Store → Store × Result AuthError Ticket
  compare_hash token claims family_id active_role none s =
      (s, err (unauthorized "Invalid refresh token"))
  compare_hash token claims family_id active_role (some stored) s =
      if str_eq stored ""
      then (s, err (unauthorized "Invalid refresh token"))
      else if str_eq (hash token) stored
      then (
        s,
        ok (record {
          credential_id = claims.id;
          family_id = family_id;
          stored_hash = stored;
          payload = record {
            id = claims.id;
            email = claims.email;
            role = claims.role;
            active_role = active_role;
          };
        }),
      )
      else (
        revoke_token_family claims.id family_id s,
        err (unauthorized "Refresh token has been revoked"),
      )

  -- Step 2, after the test of the family and the active role in the claims.
  pub look_up_family :
      ℕ
      → String
      → Claims
      → Option String
      → Option UserRole
      → Store
      → Store × Result AuthError Ticket
  look_up_family now token claims none active_role s =
      (s, err (unauthorized "Invalid refresh token"))
  look_up_family now token claims (some family_id) none s =
      (s, err (unauthorized "Invalid refresh token"))
  look_up_family now token claims (some family_id) (some active_role) s =
      if str_eq family_id ""
      then (s, err (unauthorized "Invalid refresh token"))
      else compare_hash token claims family_id active_role
          (find_active_token_hash now claims.id family_id s) s

  pub look_up : ℕ → String → Result AuthError Claims → Store → Store × Result AuthError Ticket
  look_up now token (err e) s = (s, err e)
  look_up now token (ok claims) s =
      look_up_family now token claims claims.family_id claims.active_role s

  -- `refreshToken` up to the rotation
  pub begin_refresh : ℕ → String → Store → Store × Result AuthError Ticket
  begin_refresh now token s =
      look_up now token (verify_token jwt now token config.refresh_token_secret refresh) s

  pub finish_rotated :
      ℕ → Ticket → Store × Option String → Store × Result AuthError TokenRefreshResult
  finish_rotated now t (s, none) = (
    revoke_token_family t.credential_id t.family_id s,
    err (unauthorized "Refresh token has been revoked"),
  )
  finish_rotated now t (s, some token) = (
    s,
    ok (record {
      access_token = issue_access_token jwt config now t.payload;
      refresh_token = token;
      role = t.payload.role;
    }),
  )

  -- Step 4 of `refreshToken` and the answer.
  pub finish_refresh : ℕ → Ticket → Store → Store × Result AuthError TokenRefreshResult
  finish_refresh now t s =
      finish_rotated now t
        (rotate_refresh_token now t.credential_id t.family_id t.stored_hash t.payload s)

  pub resume : ℕ → Store × Result AuthError Ticket → Store × Result AuthError TokenRefreshResult
  resume now (s, err e) = (s, err e)
  resume now (s, ok t) = finish_refresh now t s

  -- `refreshToken` when nothing comes between its calls of Redis
  pub refresh_token : ℕ → String → Store → Store × Result AuthError TokenRefreshResult
  refresh_token now token s = resume now (begin_refresh now token s)

  -- `revokeRefreshToken` on the id and the family of the decoded token
  pub revoke_family_of : String → Option String → Store → Store
  revoke_family_of id none s = s
  revoke_family_of id (some family_id) s =
      if str_eq id "" || str_eq family_id "" then s else del (refresh_key id family_id) s

  pub revoke_decoded : Option Claims → Store → Store
  revoke_decoded none s = s
  revoke_decoded (some claims) s = revoke_family_of claims.id claims.family_id s

  -- `logout`, which is `revokeRefreshToken`
  pub logout : String → Store → Store
  logout token s = revoke_decoded (jwt.decode token) s
