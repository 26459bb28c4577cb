-- ===== src/IssueService/ProjectAccess.antt =====
-- apps/issue-service-nest/src/infrastructure/project-access.client.ts: how the issue service asks the
-- project service for the access of a user. The cast of a body to ProjectAccessContext and
-- encodeURIComponent are parameters; log lines are left out.
pub mod Refusals
use jira_microservices_lab.Common.{ℕ, Text, codes, Bool, Option, none, some, ◌++◌, if◌then◌else◌}
use jira_microservices_lab.Json.{
  Value, Fields, Items, Number, end, field, undefined, null, bool, num, str, arr, obj, get, as_text,
}
use jira_microservices_lab.Domain.Errors.{DomainError, Error, domain, Result, ok, err, domain_error}
use jira_microservices_lab.Application.Access.{ProjectAccessContext, ProjectAccess}
use jira_microservices_lab.Gateway.Client.{HttpRequest, get_method, strip_slashes, is_ok}

-- What `fetch` comes to: an error, also that of the time limit, or a status and what reading the
-- body as JSON gave, `none` if that failed.
pub data Answer : Type 0 where
  no_answer : Answer
  answer : ℕ → Option Value → Answer

-- `typeof value === 'string' ? value : other`
abbrev pub string_else : Option Text → Text → Text
string_else none other = other
string_else (some t) other = t

abbrev pub project_service_unavailable : Error
project_service_unavailable =
    domain_error 503 "PROJECT_SERVICE_UNAVAILABLE" "Project service is unavailable" end

unfoldable pub access_error : ℕ → Fields → Error
access_error status body = domain (record {
  status = status;
  code = string_else (as_text (get "code" body)) (codes "PROJECT_ACCESS_FAILED");
  message = string_else (as_text (get "message" body)) (codes "Project access check failed");
  details = end;
})

-- The error of an answer with another status than 2xx. Reading a property of `null` throws, which is
-- caught; other values that are no objects have none of the two properties.
abbrev pub refusal : ℕ → Value → Error
refusal status undefined = project_service_unavailable
refusal status null = project_service_unavailable
refusal status (bool b) = access_error status end
refusal status (num n) = access_error status end
refusal status (str t) = access_error status end
refusal status (arr items) = access_error status end
refusal status (obj fields) = access_error status fields

-- `response.json().catch(() => ({}))`
abbrev pub body_or_empty : Option Value → Value
body_or_empty none = obj end
body_or_empty (some v) = v

module _ (cast : Value → ProjectAccessContext) where
  unfoldable pub read_access : Answer → Result ProjectAccessContext
  unfolding access_error
  read_access no_answer = err project_service_unavailable
  read_access (answer status body) =
      if is_ok status
      then ok (cast (body_or_empty body))
      else err (refusal status (body_or_empty body))

module _ (encode : Text → Text) (base_url secret : Text) where
  unfoldable pub access_request : Text → Text → Text → HttpRequest
  unfolding strip_slashes
  access_request project_id user_id correlation_id = record {
    url =
        strip_slashes base_url
        ++ (codes "/internal/projects/" ++ (encode project_id ++ codes "/access-context"));
    method = get_method;
    headers = field "accept" (str (codes "application/json")) (
        field "x-authenticated-user-id" (str user_id) (
          field "x-correlation-id" (str correlation_id)
            (field "x-internal-service-secret" (str secret) end)));
    body = none;
  }

  module _ (cast : Value → ProjectAccessContext) (fetch : HttpRequest → Answer) where
    unfoldable pub get_access : ProjectAccess
    unfolding access_request read_access
    get_access project_id user_id correlation_id =
        read_access cast (fetch (access_request project_id user_id correlation_id))
