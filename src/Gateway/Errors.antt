-- ===== src/Gateway/Errors.antt =====
-- apps/api-gateway-nest/src/common/errors/app.exception.ts, and what the code of the gateway returns
-- or throws.
use Prim.Native.String.{String}
use jira_microservices_lab.Common.{ℕ, Text, codes, none, some, [], ◌∷◌}
use jira_microservices_lab.Json.{Value, Fields, end, undefined, as_text, as_object}

pub record AppException : Type 0 where
  pub status_code : ℕ
  pub code : Text
  pub message : Text
  pub details : Fields

-- An `AppException`, an `HttpException` of the framework with its status, response and message, or
-- any other error.
pub data Thrown : Type 0 where
  app : AppException → Thrown
  http : ℕ → Value → Text → Thrown
  other : Thrown

pub data Outcome {ℓ} (A : Type ℓ) : Type ℓ where
  returns : A → Outcome A
  throws : Thrown → Outcome A

-- The constructor, whose details are empty when they are not given.
unfoldable pub app_exception : ℕ → String → String → Fields → AppException
app_exception status code message details = record {
  status_code = status;
  code = codes code;
  message = codes message;
  details = details;
}

-- `typeof value === 'string' && value ? value : fallback`
unfoldable pub string_or : Value → Text → Text
string_or value fallback = elim (as_text value) [ none ↦ fallback | some t ↦ non_empty t fallback ]
  where
    non_empty : Text → Text → Text
    non_empty [] other_text = other_text
    non_empty (c ∷ s) other_text = c ∷ s

-- The value if it is an object and no array, or else an empty object.
abbrev pub object_or_empty : Value → Fields
object_or_empty value = elim (as_object value) [ none ↦ end | some fields ↦ fields ]

-- `await` of a call whose result is dropped.
abbrev pub discard : Outcome Value → Outcome Value
discard (returns v) = returns undefined
discard (throws t) = throws t
