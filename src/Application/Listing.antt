-- ===== src/Application/Listing.antt =====
-- apps/issue-service-nest/src/application/issue-application.service.ts: `listIssues`.
pub mod Answers
use jira_microservices_lab.Common.{Text, Option, none, some, List}
use jira_microservices_lab.Json.{Fields, str}
use jira_microservices_lab.Domain.Errors.{Result, ok, err, ◌>>=◌}
use jira_microservices_lab.Domain.Issue.{Issue}
use jira_microservices_lab.Domain.Values.{uuid}
use jira_microservices_lab.Repository.Db.{Db}
use jira_microservices_lab.Repository.Listing
use jira_microservices_lab.Repository.Listing.{Platform, IssueListPage}
use jira_microservices_lab.Repository.Listing.Filter.{IssueListPosition}
use jira_microservices_lab.Application.Access.{ProjectAccess, RequestContext}
use jira_microservices_lab.Application.ListQuery.{encode_issue_cursor, parse_issue_list_query}

-- The answer: a page, and the cursor of the next one unless it is the last.
pub record IssueList : Type 0 where
  pub items : List Issue
  pub next_cursor : Option Text

module _ (platform : Platform) where
  abbrev pub cursor_of : Option IssueListPosition → Option Text
  cursor_of none = none
  cursor_of (some p) = some (encode_issue_cursor platform.to_base64 platform.from_base64 p)

  abbrev pub answer : IssueListPage → IssueList
  answer page = record { items = page.items; next_cursor = cursor_of page.next }

  unfoldable pub list_issues :
      ProjectAccess → Text → Fields → RequestContext → Db → Result IssueList
  list_issues get_access project_id_value query_value context db = do
    project_id ← uuid (str project_id_value) "projectId"
    query ← parse_issue_list_query platform.to_base64 platform.from_base64 query_value
    access ← get_access project_id context.user_id context.correlation_id
    ok (answer (Listing.list_issues platform project_id query.filter query.after query.limit db))
