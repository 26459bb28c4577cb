-- ===== src/Tests/Board.antt =====
-- The board, the roadmap and the requests of the web client, over the project of the other tests.
use jira_microservices_lab.Common.{
  ◌≡◌, ◌≤◌, refl, ◌↔◌, true, none, Text, codes, some, map, IsIn, arith,
}
use jira_microservices_lab.Json.{Value}
use jira_microservices_lab.Domain.Errors.{ok}
use jira_microservices_lab.Domain.Issue.{in_progress}
use jira_microservices_lab.Application.Access.{require_visible_issue}
use jira_microservices_lab.Application.Plans.{transition_plan}
use jira_microservices_lab.Gateway.Errors.{Outcome, returns}
use jira_microservices_lab.Gateway.Client.{Method, CallContext}
use jira_microservices_lab.WebClient.Requests.{transition_issue, issue_request}
use jira_microservices_lab.WebClient.Requests.Served.{IsServed, is_plain}
use jira_microservices_lab.Tests.Paths.{read_path, read_path-ReadsPlain}
use jira_microservices_lab.WebClient.Requests.Projects.{
  IsServedProject, change_workspace_member_role, requests-IsServed,
}
use jira_microservices_lab.Json.{obj, str, field, end}
use jira_microservices_lab.WebClient.ApiError.{RequestError, axios_error, get_api_error_code}
use jira_microservices_lab.WebClient.Issues.{IssueListFilters}
use jira_microservices_lab.WebClient.Requests.{is_concurrent_issue_modification}
use jira_microservices_lab.WebClient.Cache.{
  issues as issues_shown, query_key, update_issue, error, invalidated,
}
use jira_microservices_lab.WebClient.Cache.Fresh.{
  Covers, its_list, update_conflict, invalidated-Covers,
}
use jira_microservices_lab.WebClient.Board.{Move, valid_moves}
use jira_microservices_lab.WebClient.Board.Moves.{planned, move_offered_iff}
use jira_microservices_lab.Tests.Running.{code}
use jira_microservices_lab.Tests.Data.{issue_id, bob, one_issue, first_issue, open_access, by_alice}

abbrev echo : Method → Text → Value → CallContext → Outcome Value
echo method path body context = returns body

abbrev encode : Text → Text
encode t = t

plain_ids : (is_plain issue_id ≡ true) × (is_plain (codes "w") ≡ true) × (is_plain bob ≡ true)
unfolding codes
plain_ids = (refl, refl, refl)

requests-IsServed_example :
    IsServed echo encode read_path (transition_issue issue_id in_progress 1)
    × IsServedProject echo encode read_path
        (change_workspace_member_role (codes "w") bob (codes "ADMIN"))
requests-IsServed_example =
    requests-IsServed echo encode read_path read_path-ReadsPlain
      (transition_issue issue_id in_progress 1)
      (change_workspace_member_role (codes "w") bob (codes "ADMIN")) plain_ids.0
      (plain_ids.1, plain_ids.2)

first_issue_shown :
    require_visible_issue open_access first_issue.id by_alice true one_issue ≡ ok first_issue
unfolding code
first_issue_shown = refl

first_version : (1 ≤ first_issue.version) × (first_issue.version ≤ 9007199254740991)
unfolding code
first_version = (omega arith, omega arith)

move_offered_iff_example :
    IsIn in_progress (map (λ (m : Move). m.status) (valid_moves first_issue.status)) ↔ (
      transition_plan open_access first_issue.id
        (issue_request (transition_issue first_issue.id in_progress first_issue.version)).body
        by_alice
        one_issue
      ≡ planned first_issue (record { from = first_issue.status; to = in_progress }))
move_offered_iff_example =
    move_offered_iff open_access by_alice one_issue first_issue in_progress
      (transition_issue first_issue.id in_progress first_issue.version) refl first_issue_shown
      first_version.0 first_version.1

abbrev all_issues : IssueListFilters
all_issues = record { status = none; assignee_user_id = none; sprint_id = none; q = none }

-- The answer of the gateway to a change whose version is not the present one.
abbrev conflict : RequestError
conflict = axios_error (
    some (record {
      status = 409;
      data_value = obj (field "code" (str (codes "CONCURRENT_ISSUE_MODIFICATION")) end);
    }))

is_conflict : is_concurrent_issue_modification conflict ≡ true
unfolding code is_concurrent_issue_modification get_api_error_code
is_conflict = refl

invalidated-Covers_example :
    Covers
      (invalidated (update_issue (some (codes "p")) issue_id) (error conflict))
      (query_key (issues_shown (codes "p") all_issues))
unfolding codes
invalidated-Covers_example =
    invalidated-Covers (update_issue (some (codes "p")) issue_id) (error conflict)
      (issues_shown (codes "p") all_issues)
      (update_conflict conflict is_conflict (its_list all_issues))
