-- ===== src/Gateway/Filter.antt =====
-- apps/api-gateway-nest/src/presentation/common/filters/api-exception.filter.ts and
-- apps/api-gateway-nest/src/presentation/common/errors/correlation-id.ts: what a client is told when
-- a handler throws, and the identifier that its request goes by.
use jira_microservices_lab.Common.{
  Text, codes, Option, none, some, [], ◌∷◌, ◌++◌, keep, not, ◌==◌, decimal, trim,
}
use jira_microservices_lab.Json.{end, field, str, obj, get}
use jira_microservices_lab.Presentation.{Header, absent, once, many, Response}
use jira_microservices_lab.Gateway.Errors.{
  AppException, Thrown, app, http, other, app_exception, string_or, object_or_empty,
}

unfoldable pub to_api_error : Thrown → AppException
unfolding string_or app_exception decimal
to_api_error (app e) = e
to_api_error (http status response message) =
    let body = object_or_empty response in
    record {
      status_code = status;
      code = string_or (get "code" body) (codes "HTTP_" ++ decimal status);
      message = string_or (get "message" body) message;
      details = object_or_empty (get "details" body);
    }
to_api_error other = app_exception 500 "INTERNAL_ERROR" "Unexpected server error" end

unfoldable pub api_response : Text → Thrown → Response
unfolding to_api_error
api_response correlation_id thrown =
    let e = to_api_error thrown in
    record {
      status = e.status_code;
      body = field "code" (str e.code) (
          field "message" (str e.message)
            (field "correlationId" (str correlation_id) (field "details" (obj e.details) end)));
    }

-- A header that is given once and is not blank.
abbrev pub not_blank : Header → Option Text
not_blank absent = none
not_blank (once t) = elim (trim t) [ [] ↦ none | c ∷ s ↦ some t ]
not_blank (many ts) = none

abbrev pub new_id : Text → Header → Text
new_id uuid header = elim (not_blank header) [
  | none ↦ codes "req_" ++ keep (λ c. not (c == b'-')) uuid
  | some t ↦ t
]

-- The identifier, and the one that the request keeps from then on. `uuid` is that of `randomUUID`.
unfoldable pub get_correlation_id : Text → Header → Option Text → Text × Option Text
unfolding trim
get_correlation_id uuid header (some (c ∷ s)) = (c ∷ s, some (c ∷ s))
get_correlation_id uuid header (some []) = (new_id uuid header, some (new_id uuid header))
get_correlation_id uuid header none = (new_id uuid header, some (new_id uuid header))
