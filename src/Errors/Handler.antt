-- ===== src/Errors/Handler.antt =====
-- The last middleware of the user-service, services/user-service/src/middlewares/globalErrorHandler.ts,
-- and handleZodError of packages/shared-types/src/index.ts.
use nexus_commerce.Base.{
  ℕ, Bool, true, false, ◌||◌, Option, none, some, String, List, [], ◌∷◌, ◌++◌, map, str_eq, leb,
  if◌then◌else◌,
}
use Prim.Native.String.{◌++◌ as text_append}
use text.Mathlib.Text.{find?}

-- `ZodIssue`, with the texts of its path
pub record Issue : Type 0 where
  pub path : List String
  pub message : String
  pub code : String

-- `err.meta` of an error of Prisma
pub record PrismaMeta : Type 0 where
  pub target : Option (List String)
  pub cause : Option String
  pub field_name : Option String
  pub constraint : Option String
  pub column_name : Option String

-- The class of what was thrown, with the fields of its own
pub data Kind : Type 0 where
  zod_error : List Issue → Kind
  prisma_known : String → PrismaMeta → Kind
  prisma_validation : Kind
  prisma_initialization : Option String → Kind
  app_error : ℕ → Bool → Option String → Kind
  plain_error : Kind

pub record Failure : Type 0 where
  pub kind : Kind
  pub name : String
  pub message : String
  pub stack : Option String

-- `TErrorSource`
pub record ErrorSource : Type 0 where
  pub field : Option String
  pub message : String
  pub code : Option String

-- `TSimplifiedError`, and the variables that the handler sets
pub record SimplifiedError : Type 0 where
  pub status_code : ℕ
  pub message : String
  pub error_type : String
  pub is_operational : Bool
  pub error_sources : List ErrorSource

-- `TErrorResponse`, but for `success`
pub record ErrorResponse : Type 0 where
  pub message : String
  pub error_type : String
  pub errors : List ErrorSource
  pub request_id : Option String
  pub timestamp : ℕ
  pub stack : Option String

pub data LogLevel : Type 0 where
  log_error log_warn : LogLevel

-- What a request's failure leads to: the status and the body that are sent, and the log, of which the
-- levels and messages are kept.
pub record Reply : Type 0 where
  pub status : ℕ
  pub body : ErrorResponse
  pub log : List (LogLevel × String)

pub record Request : Type 0 where
  pub request_id : Option String
  pub now : ℕ
  pub node_env : String

-- `text || default`
abbrev pub or_else : Option String → String → String
or_else none default = default
or_else (some s) default = if str_eq s "" then default else s

abbrev pub first : Option (List String) → Option String
first none = none
first (some []) = none
first (some (s ∷ ss)) = some s

-- `path[path.length - 1]`
abbrev pub last : List String → Option String
last [] = none
last (s ∷ []) = some s
last (s ∷ t ∷ ss) = last (t ∷ ss)

abbrev pub is_found : Option ℕ → Bool
is_found none = false
is_found (some n) = true

-- `text.includes(part)`
abbrev pub includes : String → String → Bool
includes text part = is_found (find? text part)

abbrev pub source : String → String → Option String → List ErrorSource
source field message code = record { field = some field; message = message; code = code } ∷ []

-- `handleZodError`
abbrev pub handle_zod_error : List Issue → SimplifiedError
handle_zod_error issues = record {
  status_code = 400;
  message = "Validation failed";
  error_type = "ValidationError";
  is_operational = true;
  error_sources =
      map (λ (i : Issue). record { field = last i.path; message = i.message; code = some i.code })
        issues;
}

-- The cases of the `switch` on the code
pub data PrismaCode : Type 0 where
  unique_violation not_found foreign_key null_violation invalid_value unreachable timed_out
        unlisted :
      PrismaCode

pub prisma_code : String → PrismaCode
prisma_code c =
    if str_eq c "P2002"
    then unique_violation
    else if str_eq c "P2025"
    then not_found
    else if str_eq c "P2003"
    then foreign_key
    else if str_eq c "P2011"
    then null_violation
    else if str_eq c "P2006"
    then invalid_value
    else if str_eq c "P1001" || str_eq c "P1002" || str_eq c "P1008"
    then unreachable
    else if str_eq c "P2024"
    then timed_out
    else unlisted

abbrev pub simplified : ℕ → String → String → Bool → List ErrorSource → SimplifiedError
simplified status message error_type operational sources = record {
  status_code = status;
  message = message;
  error_type = error_type;
  is_operational = operational;
  error_sources = sources;
}

abbrev pub known_error : PrismaCode → String → String → PrismaMeta → SimplifiedError
known_error unique_violation code message m =
    simplified 409 "Resource already exists" "DuplicateError" true (
      source (or_else (first m.target) "unknown")
        (text_append (or_else (first m.target) "Field") " already exists") (some code))
known_error not_found code message m =
    simplified 404 "Resource not found" "NotFoundError" true
      (source "id" (or_else m.cause "Record not found") (some code))
known_error foreign_key code message m =
    simplified 400 "Invalid reference" "ForeignKeyError" true
      (source (or_else m.field_name "reference") "Referenced record does not exist" (some code))
known_error null_violation code message m =
    simplified 400 "Null constraint violation" "ValidationError" true
      (source (or_else m.constraint "unknown") "Required field is missing" (some code))
known_error invalid_value code message m =
    simplified 400 "Invalid data type" "ValidationError" true (
      source (or_else m.column_name "unknown")
        (text_append "Invalid value provided for " (or_else m.column_name "field")) (some code))
known_error unreachable code message m =
    simplified 503 "Database connection failed" "DatabaseError" false
      (source "database" "Unable to connect to database" (some code))
known_error timed_out code message m =
    simplified 408 "Request timeout" "TimeoutError" true
      (source "query" "Database operation timed out" (some code))
known_error unlisted code message m =
    simplified 400 "Database operation failed" "DatabaseError" true
      (source "database" message (some code))

-- `err.name === "RedisError" || err.message?.includes("Redis")`
abbrev pub is_redis_error : Failure → Bool
is_redis_error e = str_eq e.name "RedisError" || includes e.message "Redis"

abbrev pub redis_unavailable : SimplifiedError
redis_unavailable =
    simplified 503 "Cache service unavailable" "CacheError" true
      (source "cache" "Redis operation failed - operating in degraded mode" none)

abbrev pub custom_error : ℕ → Bool → Option String → String → String → SimplifiedError
custom_error status operational field name message =
    simplified status message name operational (source (or_else field "application") message none)

-- `err instanceof Error`
abbrev pub generic_error : String → SimplifiedError
generic_error message = simplified 500 message "UnknownError" false (source "server" message none)

-- The `else if`s on the name
abbrev pub named_error : String → String → SimplifiedError
named_error name message =
    if str_eq name "JsonWebTokenError"
    then simplified 401 "Invalid authentication token" "AuthenticationError" true
        (source "token" "Token is malformed or invalid" none)
    else if str_eq name "TokenExpiredError"
    then simplified 401 "Authentication token expired" "AuthenticationError" true
        (source "token" "Token has expired, please login again" none)
    else if str_eq name "MulterError"
    then simplified 400 "File upload failed" "FileUploadError" true (source "file" message none)
    else generic_error message

abbrev pub simplify_kind : Kind → Failure → SimplifiedError
simplify_kind (zod_error issues) e = handle_zod_error issues
simplify_kind (prisma_known code meta) e = known_error (prisma_code code) code e.message meta
simplify_kind prisma_validation e =
    simplified 400 "Invalid query parameters" "ValidationError" true
      (source "query" "Invalid data provided to database query" none)
simplify_kind (prisma_initialization code) e =
    simplified 503 "Database initialization failed" "DatabaseError" false
      (source "database" "Failed to initialize database connection" code)
simplify_kind (app_error status operational field) e =
    if is_redis_error e
    then redis_unavailable
    else custom_error status operational field e.name e.message
simplify_kind plain_error e =
    if is_redis_error e then redis_unavailable else named_error e.name e.message

-- The chain of `if`s of the user-service
abbrev pub simplify : Failure → SimplifiedError
simplify e = simplify_kind e.kind e

abbrev pub log_lines : SimplifiedError → String → List (LogLevel × String)
log_lines s message =
    if leb 500 s.status_code
    then (log_error, text_append s.message (text_append " - " message)) ∷ []
    else if leb 400 s.status_code
    then (log_warn, text_append s.message (text_append " - " message)) ∷ []
    else []

abbrev pub hidden_sources : List ErrorSource
hidden_sources = source "server" "An unexpected error occurred" none

-- From the response to the end
abbrev pub respond : Request → Failure → SimplifiedError → Reply
respond q e s =
    let body : ErrorResponse = record {
      message = s.message;
      error_type = s.error_type;
      errors = s.error_sources;
      request_id = q.request_id;
      timestamp = q.now;
      stack = if str_eq q.node_env "development" then e.stack else none;
    } in
    if s.is_operational
    then record { status = s.status_code; body = body; log = log_lines s e.message }
    else record {
      status = s.status_code;
      body =
          if str_eq q.node_env "production"
          then record body {
            message = "Internal server error";
            errors = hidden_sources;
            stack = none;
          }
          else body;
      log =
          log_lines s e.message
          ++ (log_error, "Non-operational error occurred - this should be investigated") ∷ [];
    }

-- `globalErrorHandler` of the user-service
unfoldable pub handle : Request → Failure → Reply
handle q e = respond q e (simplify e)
