-- ===== src/Errors.antt =====
-- packages/errors/src/index.ts: the errors that the services throw. The time at which an error was made
-- is left out.
pub mod Handler
pub mod Plain
pub mod Privacy
mod Tests
use nexus_commerce.Base.{ℕ, Bool, true, false, Option, none, some, String}

-- `AppError`, with the name that the constructor of the class sets
pub record AppError : Type 0 where
  pub name : String
  pub status_code : ℕ
  pub message : String
  pub is_operational : Bool
  pub field : Option String

abbrev pub bad_request_error : String → Option String → AppError
bad_request_error message field = record {
  name = "BadRequestError";
  status_code = 400;
  message = message;
  is_operational = true;
  field = field;
}

abbrev pub unauthorized_error : String → AppError
unauthorized_error message = record {
  name = "UnauthorizedError";
  status_code = 401;
  message = message;
  is_operational = true;
  field = none;
}

abbrev pub forbidden_error : String → AppError
forbidden_error message = record {
  name = "ForbiddenError";
  status_code = 403;
  message = message;
  is_operational = true;
  field = none;
}

abbrev pub conflict_error : String → Option String → AppError
conflict_error message field = record {
  name = "ConflictError";
  status_code = 409;
  message = message;
  is_operational = true;
  field = field;
}

abbrev pub internal_server_error : String → AppError
internal_server_error message = record {
  name = "InternalServerError";
  status_code = 500;
  message = message;
  is_operational = false;
  field = none;
}

-- What a handler throws: one of these, or the error of a call outside the repository.
pub data Thrown : Type 0 where
  app : AppError → Thrown
  -- `update` of a row that is not there, and `create` of a value that is taken
  record_not_found unique_violation : Thrown
  -- any other error, with its message
  other_error : String → Thrown
