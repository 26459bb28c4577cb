-- ===== src/Tests/Gateway.antt =====
-- The gateway, with stand-ins for what it relies on: a Redis whose state is the counters, services
-- that always answer the same, and a JSON text that stands for one value.
use jira_microservices_lab.Common.{◌≡◌, ◌≢◌, refl, Text, codes, some, [], arith}
use jira_microservices_lab.Json.{str, obj, end, undefined, get}
use jira_microservices_lab.Domain.Errors.{DomainError}
use jira_microservices_lab.Presentation.{absent}
use jira_microservices_lab.Gateway.Errors.{AppException, app, throws}
use jira_microservices_lab.Gateway.Client.{
  get_method, CallContext, HttpRequest, Fetched, answered, JsonText, parsed, forward,
}
use jira_microservices_lab.Gateway.Filter.{api_response}
use jira_microservices_lab.Gateway.Adapters.Issues.{issue_client}
use jira_microservices_lab.WebClient.ApiError.{get_api_error_code}
use jira_microservices_lab.WebClient.Errors.{seen, thrown_response, forward-error_response}

abbrev missing : DomainError
missing = record {
  status = 404;
  code = codes "ISSUE_NOT_FOUND";
  message = codes "Issue was not found";
  details = end;
}

abbrev request_id : Text
request_id = codes "r1"

-- The text "j", which stands for the body of the response to an error.
abbrev json_for : DomainError → JsonText
json_for e = record {
  stringify = λ v. codes "j";
  parse = λ t. some (obj (thrown_response request_id absent e).body);
}

abbrev fetch_error : DomainError → HttpRequest → Fetched
fetch_error e request = answered e.status (codes "j")

abbrev caller : CallContext
caller = record { correlation_id = codes "c1"; user_id = some (codes "alice") }

abbrev client_url : Text
client_url = codes "http://localhost:8083/"

missing-NonEmpty : (missing.code ≢ []) × (missing.message ≢ [])
unfolding codes
missing-NonEmpty = (λ h. absurd (ground arith), λ h. absurd (ground arith))

missing-parsed :
    parsed (json_for missing) (codes "j") ≡ obj (thrown_response request_id absent missing).body
unfolding parsed codes
missing-parsed = refl

abbrev path : Text
path = codes "/internal/issues/x"

forward-error_response_example :
    (t : AppException) × (forward
        (json_for missing)
        (issue_client client_url)
        (codes "s")
        (fetch_error missing)
        get_method
        path
        undefined
        caller
      ≡ throws (app t))
    × (t.status_code ≡ missing.status)
    × (t.code ≡ missing.code)
    × (t.message ≡ missing.message)
    × (t.details ≡ missing.details)
    × (get_api_error_code (seen (api_response (codes "c1") (app t))) ≡ some missing.code)
    × ((api_response (codes "c1") (app t)).status ≡ missing.status)
    × (get "message" (api_response (codes "c1") (app t)).body ≡ str missing.message)
    × (get "details" (api_response (codes "c1") (app t)).body ≡ obj missing.details)
forward-error_response_example =
    forward-error_response (json_for missing) (issue_client client_url) (codes "s")
      (fetch_error missing) get_method path undefined caller request_id absent missing (codes "c1")
      refl refl missing-NonEmpty.0 missing-NonEmpty.1 missing-parsed
