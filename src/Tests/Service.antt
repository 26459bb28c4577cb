-- ===== src/Tests/Service.antt =====
-- The issue service at its edges, with stand-ins for the project service, for JSON and for the other
-- services that the gateway checks.
use Prim.Native.String.{String}
use jira_microservices_lab.Common.{
  ℕ, ◌≡◌, ◌≢◌, refl, ◌↔◌, ◌⊎◌, true, Bool, Text, codes, Option, none, some, [], All, keep,
  starts_with, arith,
}
use jira_microservices_lab.Json.{Value, Fields, obj, str, end, get}
use jira_microservices_lab.Domain.Errors.{domain, ok, err, failure}
use jira_microservices_lab.Domain.Values.{uuid}
use jira_microservices_lab.Repository.Table.{find_row}
use jira_microservices_lab.Repository.Outbox.{outbox_status, is_unpublished}
use jira_microservices_lab.Application.Access.{
  ProjectAccessContext, RequestContext, require_visible_issue,
}
use jira_microservices_lab.Presentation.{
  absent, once, error, context_required, request_context, error_response,
}
use jira_microservices_lab.Gateway.Client.{HttpRequest}
use jira_microservices_lab.Gateway.Health.{
  other, HealthReply, replied, value, get_services_health, ok as well,
}
use jira_microservices_lab.Gateway.Health.Aggregated.{services_health_ok_outbox}
use jira_microservices_lab.IssueService.ProjectAccess.{Answer, answer, get_access}
use jira_microservices_lab.IssueService.ProjectAccess.Refusals.{
  missing, require_visible_issue_refuses,
}
use jira_microservices_lab.IssueService.Health.{get_health}
use jira_microservices_lab.IssueService.Health.Backlog.{IsMoving}
use jira_microservices_lab.IssueService.Start.{check_secret, assign_correlation_id}
use jira_microservices_lab.IssueService.Start.Secret.{Carries, check_secret_iff}
use jira_microservices_lab.IssueService.Start.Correlation.{one_correlation_id}
use jira_microservices_lab.Tests.Running.{code}
use jira_microservices_lab.Tests.Data.{
  issue_id, alice, one_issue, first_issue, membership, by_alice,
}

abbrev unchanged : Text → Text
unchanged t = t

abbrev url : Text
url = codes "http://localhost:8082/"

abbrev secret : Text
secret = codes "s"

abbrev cast : Value → ProjectAccessContext
cast v = membership

abbrev grant : HttpRequest → Answer
grant request = answer 200 (some (obj end))

abbrev refuse : HttpRequest → Answer
refuse request = answer 404 (some (obj end))

issue_found :
    (uuid (str issue_id) "issueId" ≡ ok issue_id)
    × (find_row issue_id one_issue.issues ≡ some first_issue)
unfolding code
issue_found = (refl, refl)

require_visible_issue_refuses_example :
    require_visible_issue
      (get_access unchanged url secret cast refuse)
      issue_id
      by_alice
      true
      one_issue
    ≡ err (
        domain (record {
          status = 404;
          code = codes "ISSUE_NOT_FOUND";
          message = codes "Issue was not found";
          details = end;
        }))
require_visible_issue_refuses_example =
    require_visible_issue_refuses unchanged url secret cast refuse issue_id by_alice true one_issue
      first_issue issue_id (answer 404 (some (obj end))) _ issue_found.0 issue_found.1 refl missing

-- At the time 20 the one event of the database is 8 microseconds old.
abbrev health : Fields
health = get_health (some (outbox_status 20 one_issue)) true (codes "now")

abbrev fetch : Text → HealthReply × ℕ
fetch address = (replied 200 (value (obj health)), 1)

abbrev env : String → Option Text
env name = none

health_ok : (get_services_health other env fetch).0 ≡ well
unfolding code get_services_health get_health
health_ok = refl

services_health_ok_outbox_example :
    (Bool.true ≡ true) × All (IsMoving 20) (keep is_unpublished one_issue.outbox)
services_health_ok_outbox_example =
    services_health_ok_outbox other env fetch 20 one_issue true (codes "now") refl health_ok

secret_filled : unchanged [] ≢ unchanged secret
unfolding codes
secret_filled = λ h. absurd (ground arith)

check_secret_iff_example :
    (check_secret unchanged secret (codes "/internal/issues/1") absent ≡ none) ↔ (
      (starts_with (codes "/internal/issues/1") (codes "/health") ≡ true)
      ⊎ Carries unchanged secret absent)
check_secret_iff_example =
    check_secret_iff unchanged secret (codes "/internal/issues/1") absent secret_filled

fresh_filled : codes "f" ≢ []
unfolding codes
fresh_filled = λ h. absurd (ground arith)

abbrev assigned : Text
assigned = assign_correlation_id (codes "f") absent

one_correlation_id_example :
    ((absent ≡ once assigned) ⊎ (assigned ≡ codes "f"))
    × (get "correlationId" (error_response (codes "q") (once assigned) (error failure)).body
        ≡ str assigned)
    × (((context : RequestContext) × (request_context (codes "g") (once alice) (once assigned)
            ≡ ok context)
          × (context.correlation_id ≡ assigned))
        ⊎ (request_context (codes "g") (once alice) (once assigned) ≡ err context_required))
one_correlation_id_example =
    one_correlation_id (codes "f") (codes "g") (codes "q") (once alice) absent (error failure)
      fresh_filled
