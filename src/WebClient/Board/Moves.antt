-- ===== src/WebClient/Board/Moves.antt =====
-- apps/web-client/src/features/issue/components/Board/Board.tsx against
-- apps/issue-service-nest/src/application/issue-application.service.ts: a move on the board, as the
-- issue service takes it.
use jira_microservices_lab.Common.{
  ℕ, ◌≡◌, refl, ◌↔◌, ◌≤◌, true, some, codes, upper, trim, text_eq, IsIn, subst, map, arith,
}
use jira_microservices_lab.Json.{Value, str, get}
use jira_microservices_lab.Domain.Errors.{Result, ok, and_then}
use jira_microservices_lab.Domain.Values.{enum_value, find_named}
use jira_microservices_lab.Domain.Issue.{
  Issue, IssueStatus, todo, in_progress, done, issue_statuses, status_name, assert_transition,
  issue_status_name, ValidatedIssueTransition,
}
use jira_microservices_lab.Repository.Db.{Db}
use jira_microservices_lab.Application.Access.{ProjectAccess, RequestContext, require_visible_issue}
use jira_microservices_lab.Application.Input.{
  max_safe, body, expected_version, assert_expected_version,
}
use jira_microservices_lab.Application.Plans.{transition_plan}
use jira_microservices_lab.WebClient.Requests.{IssueCall, transition_issue, issue_request}
use jira_microservices_lab.WebClient.Board.{Move, move, valid_moves}

-- The body of the request of a move.
abbrev move_body : Issue → IssueStatus → Value
move_body issue status = (issue_request (transition_issue issue.id status issue.version)).body

status_read :
    (s : IssueStatus) → enum_value (str (codes (status_name s))) "status" issue_statuses ≡ ok s
unfolding enum_value find_named codes trim upper text_eq
status_read todo = refl
status_read in_progress = refl
status_read done = refl

-- What the plan of an accepted move holds.
abbrev Planned : Type 0
Planned = Issue × ℕ × ValidatedIssueTransition

abbrev pub planned : Issue → ValidatedIssueTransition → Result Planned
planned issue t = ok (issue, issue.version, t)

-- What is left of the plan, once the issue is found as it was shown.
transition_plan-move_body :
    (get_access : ProjectAccess) (context : RequestContext) (db : Db) (issue : Issue)
    (status : IssueStatus)
    → require_visible_issue get_access issue.id context true db ≡ ok issue
    → 1 ≤ issue.version
    → issue.version ≤ max_safe
    → transition_plan get_access issue.id (move_body issue status) context db
      ≡ and_then (assert_transition issue.status status) (planned issue)
unfolding transition_plan body get expected_version assert_expected_version
transition_plan-move_body get_access context db issue status h low high =
    ground (arith, status_read status)

offered_iff :
    (issue : Issue) (s status : IssueStatus)
    → IsIn status (map (λ (m : Move). m.status) (valid_moves s)) ↔ (
        and_then (assert_transition s status) (planned issue)
        ≡ planned issue (record { from = s; to = status }))
unfolding valid_moves assert_transition
offered_iff issue todo status = grind arith
offered_iff issue in_progress status = grind arith
offered_iff issue done status = grind arith

-- The board offers exactly the moves that the issue service plans: for an issue that is stored as
-- the board shows it, in a project that the user may write to, with a version that is a positive
-- safe integer, the request of a move is planned, as the change between the two statuses at this
-- version, just when a button for that move stands on the issue.
pub move_offered_iff :
    (get_access : ProjectAccess) (context : RequestContext) (db : Db) (issue : Issue)
    (status : IssueStatus) (call : IssueCall)
    → move true issue status ≡ some call
    → require_visible_issue get_access issue.id context true db ≡ ok issue
    → 1 ≤ issue.version
    → issue.version ≤ max_safe
    → IsIn status (map (λ (m : Move). m.status) (valid_moves issue.status)) ↔ (
        transition_plan get_access issue.id (issue_request call).body context db
        ≡ planned issue (record { from = issue.status; to = status }))
move_offered_iff get_access context db issue status call sent h low high =
    let same : transition_issue issue.id status issue.version ≡ call = ground arith in
    subst
      (λ (c : IssueCall). IsIn status (map (λ (m : Move). m.status) (valid_moves issue.status)) ↔ (
        transition_plan get_access issue.id (issue_request c).body context db
        ≡ planned issue (record { from = issue.status; to = status })))
      same
      (rw (transition_plan-move_body get_access context db issue status h low high)
        (offered_iff issue issue.status status))
