-- ===== src/Errors/Handler.antt =====
-- backend/middleware/error_handler.ts. `err.name` is the name of the class, a parameter.
use synapse_stellar.Prelude.{
  ℕ, ◌≤◌, ◌≡◌, refl, String, true, Option, none, some, List, [], ◌∷◌, map, All, leb, arith,
  if◌then◌else◌,
}
use synapse_stellar.Errors.{
  ErrorType, ErrorClass, ZodIssue, Thrown, zod, structured, other_error, other, error_type,
}

-- `code` is the text of an issue's code, a structured error's type, or `internal_error`.
pub data Code : Type 0 where
  issue : String → Code
  of_type : ErrorType → Code
  internal_error : Code

pub record ErrorDetail : Type 0 where
  pub field : String
  pub message : String
  pub code : Code

-- `headers` holds at most `Retry-After`.
pub record ErrorResponse : Type 0 where
  pub status : ℕ
  pub type : String
  pub details : List ErrorDetail
  pub retry_after : Option ℕ

abbrev pub generic_message : String
generic_message = "An unexpected error occurred"

abbrev pub default_retry_after_seconds : ℕ
default_retry_after_seconds = 60

-- `STATUS_BY_ERROR_TYPE[t] ?? 500`
abbrev pub status_by_error_type : ErrorType → ℕ
status_by_error_type ErrorType.validation_error = 400
status_by_error_type ErrorType.unauthorized_error = 401
status_by_error_type ErrorType.rate_limit_error = 429
status_by_error_type ErrorType.network_timeout = 503
status_by_error_type _ = 500

abbrev field_of : Option String → String
field_of none = "root"
field_of (some path) = path

abbrev map_zod_issues : List ZodIssue → List ErrorDetail
map_zod_issues =
    map λ i. record { field = field_of i.path; message = i.message; code = issue i.code }

-- The header that `instanceof RateLimitError` adds.
abbrev pub retry_header : ErrorClass → Option ℕ
retry_header (ErrorClass.rate_limit_error none) = some default_retry_after_seconds
retry_header (ErrorClass.rate_limit_error (some s)) = some s
retry_header _ = none

module _ (class_name : ErrorClass → String) where
  unfoldable pub handle_error : Thrown → ErrorResponse
  handle_error (zod issues) = record {
    status = 400;
    type = "ValidationError";
    details = map_zod_issues issues;
    retry_after = none;
  }
  handle_error (structured e) =
      let status = status_by_error_type (error_type e.class) in
      record {
        status = status;
        type = class_name e.class;
        details =
            record {
              field = "root";
              message = if leb 500 status then generic_message else e.message;
              code = of_type (error_type e.class);
            }
            ∷ [];
        retry_after = retry_header e.class;
      }
  handle_error _ = record {
    status = 500;
    type = "InternalServerError";
    details = record { field = "unknown"; message = generic_message; code = internal_error } ∷ [];
    retry_after = none;
  }

  -- A response of the 5xx class says nothing of the error's message: each of its details has the
  -- generic text.
  pub handle_error_hides :
      (e : Thrown)
      → 500 ≤ (handle_error e).status
      → All (λ d. d.message ≡ generic_message) (handle_error e).details
  unfolding handle_error
  handle_error_hides (zod issues) h = absurd (omega arith)
  handle_error_hides (structured e) h =
      let server : leb 500 (status_by_error_type (error_type e.class)) ≡ true = ground arith in
      rw server (refl, tt)
  handle_error_hides (other_error n t) h = (refl, tt)
  handle_error_hides (other v) h = (refl, tt)
