-- ===== src/Auth/Tokens.antt =====
-- services/auth-service/src/utils/token. The package jsonwebtoken is not part of the repository: its
-- calls are the interface `JwtOps`, in which a time is a number of milliseconds.
use nexus_commerce.Base.{
  ℕ, Bool, true, false, Option, none, some, String, List, Result, ok, err, str_eq, if◌then◌else◌,
}

pub data UserRole : Type 0 where
  customer seller admin super_admin : UserRole

pub data TokenType : Type 0 where
  access refresh password_reset : TokenType

-- `ITokenPayload`
pub record Claims : Type 0 where
  pub id : String
  pub role : List UserRole
  pub email : String
  pub active_role : Option UserRole
  pub family_id : Option String
  pub token_type : Option TokenType

-- What `buildJwtPayload` returns.
pub record JwtPayload : Type 0 where
  pub id : String
  pub email : String
  pub role : List UserRole
  pub active_role : UserRole

-- The part of `config.jwt` that tokens are made with.
pub record JwtConfig : Type 0 where
  pub access_token_secret : String
  pub access_token_expires_in : String
  pub refresh_token_secret : String
  pub refresh_token_expires_in : String

pub record JwtOps : Type 0 where
  -- `jwt.sign(claims, secret, { expiresIn })` at a time
  pub sign : ℕ → Claims → String → String → String
  -- `jwt.verify(token, secret, { algorithms: ["HS256"] })` at a time: the claims or what it throws
  pub verify : ℕ → String → String → Result String Claims
  -- `jwt.decode(token)`, without a check
  pub decode : String → Option Claims

pub data AuthError : Type 0 where
  unauthorized bad_request : String → AuthError

abbrev pub same_type : TokenType → Option TokenType → Bool
same_type access (some access) = true
same_type refresh (some refresh) = true
same_type password_reset (some password_reset) = true
same_type _ _ = false

abbrev pub wrong_type : TokenType → String
wrong_type access = "Invalid token type. Expected access token"
wrong_type refresh = "Invalid token type. Expected refresh token"
wrong_type password_reset = "Invalid token type. Expected password_reset token"

-- The `try` of `verifyToken` on what `jwt.verify` gave; its `catch` turns the wrong type, too, into
-- an UnauthorizedError.
abbrev pub check_type : TokenType → Result String Claims → Result AuthError Claims
check_type expected (err message) = err (unauthorized message)
check_type expected (ok claims) =
    if same_type expected claims.token_type
    then ok claims
    else err (unauthorized (wrong_type expected))

-- `verifyToken`
abbrev pub verify_token : JwtOps → ℕ → String → String → TokenType → Result AuthError Claims
verify_token jwt now token secret expected =
    if str_eq token ""
    then err (unauthorized "No token provided")
    else if str_eq secret ""
    then err (bad_request "JWT secret is not configured")
    else check_type expected (jwt.verify now token secret)

-- `issueAccessToken`
pub issue_access_token : JwtOps → JwtConfig → ℕ → JwtPayload → String
issue_access_token jwt config now p =
    jwt.sign now
      (record {
        id = p.id;
        role = p.role;
        email = p.email;
        active_role = some p.active_role;
        family_id = none;
        token_type = some access;
      })
      config.access_token_secret config.access_token_expires_in
