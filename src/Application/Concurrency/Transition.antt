-- ===== src/Application/Concurrency/Transition.antt =====
-- apps/issue-service-nest/src/application/issue-application.service.ts: a change of status,
-- among other requests.
use jira_microservices_lab.Common.{◌+◌, ℕ, ◌≡◌, refl, ap, sym, ◌∙◌, subst, Text, true, List, arith}
use jira_microservices_lab.Json.{Value, get}
use jira_microservices_lab.Domain.Errors.{ok}
use jira_microservices_lab.Domain.Issue.{
  Issue, IssueStatus, ValidatedIssueTransition, issue_statuses, assert_transition,
  issue_status_name,
}
use jira_microservices_lab.Domain.Issue.Workflow.{Edge, assert_transition_iff}
use jira_microservices_lab.Domain.Values.{enum_value}
use jira_microservices_lab.Repository.Db.{Db, Env}
use jira_microservices_lab.Repository.Statements.{next_version}
use jira_microservices_lab.Repository.Writes.{set_status}
use jira_microservices_lab.Repository.Operations.{transition_issue_ok}
use jira_microservices_lab.Repository.Invariant.{IsValid}
use jira_microservices_lab.Repository.Steps.{Request, run, run-IsValid}
use jira_microservices_lab.Application.Access.{ProjectAccess, RequestContext, require_visible_issue}
use jira_microservices_lab.Application.Input.{body, expected_version, assert_expected_version}
use jira_microservices_lab.Application.Plans.{transition_plan}
use jira_microservices_lab.Repository.Writes
use jira_microservices_lab.Application.Handlers.{transition_issue}
use jira_microservices_lab.Application.Visibility.{bind-eq-ok, Granted}
use jira_microservices_lab.Application.Concurrency.{
  carry_out_ok, Planned, Planned-seen, WrittenAsRead, Written-as_read,
}

next_version-status :
    (now : ℕ) (s : IssueStatus) (r : Issue) → (next_version now (set_status s) r).status ≡ s
unfolding next_version
next_version-status now s r = refl

transition_plan_ok :
    (get_access : ProjectAccess) (id : Text) (value : Value) (context : RequestContext) (db : Db)
    (issue : Issue) (expected : ℕ) (transition : ValidatedIssueTransition)
    → transition_plan get_access id value context db ≡ ok (issue, expected, transition)
    → Planned get_access context db issue expected × Edge issue.status transition.to
unfolding transition_plan
transition_plan_ok get_access id value context db issue expected transition h =
    let plan : Issue × ℕ × ValidatedIssueTransition = (issue, expected, transition) in
    let (input, _, h1) = bind-eq-ok (body value) _ plan h in
    let (status, _, h2) =
      bind-eq-ok (enum_value (get "status" input) "status" issue_statuses) _ plan h1 in
    let (seen, visible, h3) =
      bind-eq-ok (require_visible_issue get_access id context true db) _ plan h2 in
    let (n, _, h4) = bind-eq-ok (expected_version input) _ plan h3 in
    let (u, version, h5) = bind-eq-ok (assert_expected_version seen n) _ plan h4 in
    let (t, checked, h6) = bind-eq-ok (assert_transition seen.status status) _ plan h5 in
    let edge = (assert_transition_iff seen.status status t).0 checked in
    let same : seen ≡ issue = ground (arith, h6) in
    let same_t : t ≡ transition = ground (arith, h6) in
    (
      Planned-seen get_access id context db seen issue n expected visible version same
          (ground (arith, h6)),
      subst (λ (s : IssueStatus). Edge issue.status s) (sym edge.2 ∙ ap (λ v. v.to) same_t)
          (subst (λ (i : Issue). Edge i.status status) same edge.0),
    )

-- If the database was valid when the request read it, a change of status that succeeds is an
-- edge of the workflow from the status that the issue has when it is written, whatever
-- operations on issues and on the outbox ran since: the issue still stands as it was read, only
-- its status, version and time of update change, no other issue changes, and one event and one
-- history row are added. The user had access to the project, which was not archived.
pub transition_issue_safe :
    (get_access : ProjectAccess) (context : RequestContext) (env : Env) (id : Text) (value : Value)
    (rs : List Request) (read : Db) (row : Issue) (db' : Db)
    → IsValid read
    → transition_issue get_access context env id value read (run rs read) ≡ (ok row, db')
    → (issue : Issue) × Granted get_access context true issue
      × Edge issue.status row.status
      × WrittenAsRead read
          (run rs read)
          db'
          (λ r. record r { status = row.status; version = r.version + 1; updated_at = env.db_now })
          issue
          row
unfolding transition_issue next_version
transition_issue_safe get_access context env id value rs read row db' v h =
    let ((issue, expected, t), planned, k) =
      carry_out_ok (transition_plan get_access id value context read)
        (λ plan. Writes.transition_issue env plan.0 plan.1 plan.2 context.user_id) (run rs read) row
        db' h in
    let (there, edge) =
      transition_plan_ok get_access id value context read issue expected t planned in
    let w =
      transition_issue_ok env issue expected t context.user_id (run rs read) row db'
        (run-IsValid rs read v).unique k in
    let to : row.status ≡ t.to = ap (λ r. r.status) w.3 ∙ next_version-status env.db_now t.to w.0 in
    (
      issue,
      there.1,
      subst (λ (s : IssueStatus). Edge issue.status s) (sym to) edge,
      subst
          (λ (s : IssueStatus).
            WrittenAsRead read (run rs read) db'
              (λ r. record r { status = s; version = r.version + 1; updated_at = env.db_now }) issue
              row)
          (sym to) (Written-as_read rs read db' _ issue row expected v there.0 there.2 w),
    )
