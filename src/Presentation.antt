-- ===== src/Presentation.antt =====
-- apps/issue-service-nest/src/presentation/request-context.ts and domain-exception.filter.ts: who a
-- request is from, and what it is told when a handler throws. Log lines are left out.
pub mod Answers
pub mod Routes
use Prim.Native.String.{String}
use jira_microservices_lab.Common.{ℕ, Text, codes, Option, none, some, List, [], ◌∷◌}
use jira_microservices_lab.Json.{Fields, end, field, str, obj}
use jira_microservices_lab.Domain.Errors.{
  DomainError, Error, domain, failure, Result, ok, err, domain_error,
}
use jira_microservices_lab.Application.Access.{RequestContext}

-- A header of a request: absent, given once, or given more than once.
pub data Header : Type 0 where
  absent : Header
  once : Text → Header
  many : List Text → Header

unfoldable pub context_required : Error
unfolding domain_error
context_required =
    domain_error 401 "AUTH_CONTEXT_REQUIRED" "Authenticated user context is required" end

-- `typeof value === 'string' && value.length > 0`
abbrev filled : Header → Option Text
filled absent = none
filled (once []) = none
filled (once (c ∷ s)) = some (c ∷ s)
filled (many ts) = none

-- `fresh` is the value of `randomUUID()`.
unfoldable pub request_context : Text → Header → Header → Result RequestContext
unfolding context_required
request_context fresh user correlation = elim (filled user) [
  | none ↦ err context_required
  | some user_id ↦ ok (record {
    user_id = user_id;
    correlation_id = elim (filled correlation) [ none ↦ fresh | some c ↦ c ];
  })
]

-- What a controller throws: an error of a handler, or an exception of the framework with its status
-- and message.
pub data Thrown : Type 0 where
  error : Error → Thrown
  http : ℕ → Text → Thrown

pub record Response : Type 0 where
  pub status : ℕ
  pub body : Fields

abbrev response : ℕ → Text → Text → Fields → Text → Response
response status code message details correlation_id = record {
  status = status;
  body = field "code" (str code) (
      field "message" (str message)
        (field "details" (obj details) (field "correlationId" (str correlation_id) end)));
}

-- The header if it is a string, also an empty one, or else the identifier of the request.
abbrev correlation_of : Text → Header → Text
correlation_of request_id absent = request_id
correlation_of request_id (once t) = t
correlation_of request_id (many ts) = request_id

unfoldable pub error_response : Text → Header → Thrown → Response
error_response request_id correlation (error (domain e)) =
    response e.status e.code e.message e.details (correlation_of request_id correlation)
error_response request_id correlation (error failure) =
    response 500 (codes "INTERNAL_ERROR") (codes "An unexpected error occurred") end
      (correlation_of request_id correlation)
error_response request_id correlation (http status message) =
    response status (codes "HTTP_ERROR") message end (correlation_of request_id correlation)
