-- ===== src/Errors/Plain.antt =====
-- The last middleware of the notification-service: services/notification-service/src/middlewares/
-- globalErrorHandler.ts, a file of its own with fewer cases than that of the user-service. The types of
-- requests, errors and replies are those of the latter.
use nexus_commerce.Base.{
  ℕ, Bool, true, false, Option, none, some, String, List, [], ◌∷◌, ◌++◌, str_eq, leb, if◌then◌else◌,
}
use Prim.Native.String.{◌++◌ as text_append}
use nexus_commerce.Errors.Handler.{
  Kind, app_error, Failure, ErrorSource, ErrorResponse, LogLevel, log_error, log_warn, Request,
  Reply,
}

-- The variables that the handler sets before it answers
pub record Described : Type 0 where
  pub status_code : ℕ
  pub message : String
  pub error_type : String
  pub is_operational : Bool
  pub error_sources : List ErrorSource

-- `err.field || "application"`
abbrev pub field_of : Option String → String
field_of none = "application"
field_of (some field) = if str_eq field "" then "application" else field

abbrev pub one_source : String → String → List ErrorSource
one_source field message = record { field = some field; message = message; code = none } ∷ []

-- The `if` and the `else if`: every other error is an Error.
abbrev pub describe : Kind → Failure → Described
describe (app_error status operational field) e = record {
  status_code = status;
  message = e.message;
  error_type = e.name;
  is_operational = operational;
  error_sources = one_source (field_of field) e.message;
}
describe _ e = record {
  status_code = 500;
  message = e.message;
  error_type = "UnknownError";
  is_operational = false;
  error_sources = one_source "server" e.message;
}

-- `errorResponse` before the production guard
abbrev pub error_response : Request → Failure → Described → ErrorResponse
error_response q e d = record {
  message = d.message;
  error_type = d.error_type;
  errors = d.error_sources;
  request_id = q.request_id;
  timestamp = q.now;
  stack = if str_eq q.node_env "development" then e.stack else none;
}

-- The log by the status
abbrev pub log_by_status : Described → Failure → List (LogLevel × String)
log_by_status d e =
    let text = text_append d.message (text_append " - " e.message) in
    if leb 500 d.status_code
    then (log_error, text) ∷ []
    else if leb 400 d.status_code
    then (log_warn, text) ∷ []
    else []

abbrev pub hide : ErrorResponse → ErrorResponse
hide body = record body {
  message = "Internal server error";
  errors = one_source "server" "An unexpected error occurred";
  stack = none;
}

-- What `if (!isOperational)` adds to the log, and what it takes off the response
abbrev pub log_non_operational : Bool → List (LogLevel × String) → List (LogLevel × String)
log_non_operational true lines = lines
log_non_operational false lines =
    lines ++ (log_error, "Non-operational error occurred - this should be investigated") ∷ []

abbrev pub guarded : Bool → String → ErrorResponse → ErrorResponse
guarded true node_env body = body
guarded false node_env body = if str_eq node_env "production" then hide body else body

-- `globalErrorHandler` of the notification-service
unfoldable pub handle_plain : Request → Failure → Reply
handle_plain q e =
    let d = describe e.kind e in
    record {
      status = d.status_code;
      body = guarded d.is_operational q.node_env (error_response q e d);
      log = log_non_operational d.is_operational (log_by_status d e);
    }
