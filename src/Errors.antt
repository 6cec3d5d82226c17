-- ===== src/Errors.antt =====
-- backend/errors.ts: the error classes, `getErrorType` and `sanitizeCause`.
pub mod Sanitize
pub mod Handler
mod Tests
use package.text.Mathlib.Text.{starts_with}
use Prim.Native.String.{count}
use synapse_stellar.Prelude.{
  ℕ, String, Bool, true, false, ◌&&◌, ◌||◌, Option, none, some, List, ◌==◌, string_eq, nat_eq,
  if◌then◌else◌,
}
use synapse_stellar.Values.{
  Value, Items, Fields, undefined, null, bool, number, text, array, object, nil, cons, end, field,
  put,
}

pub data ErrorType : Type 0 where
  insufficient_funds network_timeout validation_error rate_limit_error unauthorized_error :
      ErrorType
  contract_error transaction_failure config_error unknown_error : ErrorType

-- The classes that extend `StructuredError`, with the fields that they add.
pub data ErrorClass : Type 0 where
  insufficient_funds_error network_timeout_error validation_error unauthorized_error : ErrorClass
  config_error simulation_budget_error : ErrorClass
  structured_error : ErrorType → ErrorClass
  rate_limit_error : (retry_after_seconds : Option ℕ) → ErrorClass
  contract_error : (contract_id : Option String) → ErrorClass
  transaction_failure_error : (tx_hash : Option String) → ErrorClass

pub record StructuredError : Type 0 where
  pub class : ErrorClass
  pub message : String
  pub cause : Value

-- The error type that each constructor hands to `super`.
abbrev pub error_type : ErrorClass → ErrorType
error_type insufficient_funds_error = ErrorType.insufficient_funds
error_type network_timeout_error = ErrorType.network_timeout
error_type ErrorClass.validation_error = ErrorType.validation_error
error_type ErrorClass.unauthorized_error = ErrorType.unauthorized_error
error_type ErrorClass.config_error = ErrorType.config_error
error_type simulation_budget_error = ErrorType.contract_error
error_type (structured_error t) = t
error_type (ErrorClass.rate_limit_error _) = ErrorType.rate_limit_error
error_type (ErrorClass.contract_error _) = ErrorType.contract_error
error_type (transaction_failure_error _) = ErrorType.transaction_failure

-- What may be thrown: a `ZodError` with its issues, a structured error, another `Error` with its
-- name, or any other value.
pub record ZodIssue : Type 0 where
  pub path : Option String
  pub message : String
  pub code : String

pub data Thrown : Type 0 where
  zod : List ZodIssue → Thrown
  structured : StructuredError → Thrown
  other_error : (name message : String) → Thrown
  other : Value → Thrown

pub get_error_type : Thrown → ErrorType
get_error_type (structured e) = error_type e.class
get_error_type _ = unknown_error

-- The tests of the `ContractError` constructor on its second argument. (`length` counts UTF-16 units
-- and `count` characters, which differ only beyond the basic plane.)
is_contract_id : Option String → Bool
is_contract_id none = false
is_contract_id (some id) = count id == 56 && starts_with id "C"

abbrev is_defined : Value → Bool
is_defined undefined = false
is_defined _ = true

abbrev text_or_undefined : Option String → Value
text_or_undefined none = undefined
text_or_undefined (some s) = text s

-- `new ContractError(message, contractId, cause)`
pub new_contract_error : String → Option String → Value → StructuredError
unfolding is_contract_id
new_contract_error message contract_id cause = record {
  class =
      ErrorClass.contract_error
        (if is_contract_id contract_id || is_defined cause then contract_id else none);
  message = message;
  cause =
      if is_defined cause
      then cause
      else if is_contract_id contract_id
      then undefined
      else text_or_undefined contract_id;
}

-- `SENSITIVE_CAUSE_KEYS.has(key)`
abbrev pub is_sensitive : String → Bool
is_sensitive key = key == "secretKey" || key == "privateKey" || key == "seed" || key == "_secretKey"

-- The loop over `Object.entries` fills a new object, `done`.
mutual
  pub sanitize_cause : Value → Value
  sanitize_cause (array vs) = array (sanitize_items vs)
  sanitize_cause (object fs) = object (sanitize_fields fs end)
  sanitize_cause v = v

  pub sanitize_items : Items → Items
  sanitize_items nil = nil
  sanitize_items (cons v vs) = cons (sanitize_cause v) (sanitize_items vs)

  pub sanitize_fields : Fields → Fields → Fields
  sanitize_fields end done = done
  sanitize_fields (field k v fs) done =
      sanitize_fields fs (if is_sensitive k then done else put done k (sanitize_cause v))
