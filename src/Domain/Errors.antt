-- ===== src/Domain/Errors.antt =====
-- apps/issue-service-nest/src/domain/errors.ts, and the results of code that may throw.
use Prim.Native.String.{String}
use jira_microservices_lab.Common.{ℕ, Text, codes, Bool, true, false, Option, none, some, ◌==◌}
use jira_microservices_lab.Json.{str, Fields, end, field}

pub record DomainError : Type 0 where
  pub status : ℕ
  pub code : Text
  pub message : Text
  pub details : Fields

-- What is thrown: a `DomainError`, or any other error (of the database, or of the runtime).
pub data Error : Type 0 where
  domain : DomainError → Error
  failure : Error

pub data Result {ℓ} (A : Type ℓ) : Type ℓ where
  ok : A → Result A
  err : Error → Result A

-- Go on from what a first part returned.
abbrev pub and_then {ℓ κ} : {A : Type ℓ} {B : Type κ} → Result A → (A → Result B) → Result B
and_then (ok a) f = f a
and_then (err e) f = err e

infixl 5 ◌>>=◌ ◌>>◌
abbrev pub ◌>>=◌ {ℓ κ} : {A : Type ℓ} {B : Type κ} → Result A → (A → Result B) → Result B
m >>= f = and_then m f

abbrev pub ◌>>◌ {ℓ} : {B : Type ℓ} → Result (Unit {0}) → Result B → Result B
m >> k = m >>= λ _. k

-- Go on if the test holds, throw if it does not.
abbrev pub require : Bool → Error → Result (Unit {0})
require true e = ok tt
require false e = err e

abbrev pub some_or {ℓ} : {A : Type ℓ} → Option A → Error → Result A
some_or none e = err e
some_or (some a) e = ok a

unfoldable pub domain_error : ℕ → String → String → Fields → Error
domain_error status code message details =
    domain
      (record { status = status; code = codes code; message = codes message; details = details })

unfoldable pub not_found : Error
unfolding domain_error
not_found = domain_error 404 "ISSUE_NOT_FOUND" "Issue was not found" end

unfoldable pub validation_error : String → Text → Error
unfolding domain_error
validation_error name message =
    domain_error 400 "VALIDATION_ERROR" "Request validation failed" (field name (str message) end)

unfoldable pub concurrent_issue_modification : Error
unfolding domain_error
concurrent_issue_modification =
    domain_error 409 "CONCURRENT_ISSUE_MODIFICATION" "Issue changed since it was last loaded" end

-- `error instanceof DomainError && error.status === status`
unfoldable pub has_status : ℕ → Error → Bool
has_status s (domain e) = e.status == s
has_status s failure = false
