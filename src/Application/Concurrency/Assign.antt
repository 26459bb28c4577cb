-- ===== src/Application/Concurrency/Assign.antt =====
-- apps/issue-service-nest/src/application/issue-application.service.ts: an assignment,
-- among other requests.
use jira_microservices_lab.Common.{
  ◌+◌, ℕ, ◌≡◌, refl, ap, sym, ◌∙◌, subst, Text, Option, none, some, ◌⊎◌, inl, inr, true, List,
  arith,
}
use jira_microservices_lab.Json.{Value, get}
use jira_microservices_lab.Domain.Errors.{ok}
use jira_microservices_lab.Domain.Issue.{Issue, issue_status_name}
use jira_microservices_lab.Repository.Db.{Db, Env}
use jira_microservices_lab.Repository.Statements.{next_version}
use jira_microservices_lab.Repository.Writes.{
  UpdateIssueData, set_details, set_assignee, set_status, set_nothing, comment_row,
}
use jira_microservices_lab.Repository.Operations.{assign_issue_ok}
use jira_microservices_lab.Repository.Invariant.{IsValid}
use jira_microservices_lab.Repository.Steps.{Request, run, run-IsValid}
use jira_microservices_lab.Application.Access.{
  ProjectAccess, ProjectAccessContext, RequestContext, require_visible_issue,
}
use jira_microservices_lab.Application.Input.{body, expected_version, assert_expected_version}
use jira_microservices_lab.Application.Plans.{assign_plan}
use jira_microservices_lab.Repository.Writes
use jira_microservices_lab.Application.Handlers.{assign_issue}
use jira_microservices_lab.Application.Visibility.{bind-eq-ok, Granted}
use jira_microservices_lab.Application.Concurrency.{
  carry_out_ok, Planned, Planned-seen, WrittenAsRead, Written-as_read,
}
use jira_microservices_lab.Domain.Values.{optional_uuid}
use jira_microservices_lab.Application.Plans.{member_access}

next_version-assignee :
    (now : ℕ) (a : Option Text) (r : Issue)
    → (next_version now (set_assignee a) r).assignee_user_id ≡ a
unfolding next_version
next_version-assignee now a r = refl

assign_plan_ok :
    (get_access : ProjectAccess) (id : Text) (value : Value) (context : RequestContext) (db : Db)
    (issue : Issue) (expected : ℕ) (assignee : Option Text)
    → assign_plan get_access id value context db ≡ ok (issue, expected, assignee)
    → Planned get_access context db issue expected
      × (member_access get_access issue.project_id assignee context ≡ ok tt)
unfolding assign_plan
assign_plan_ok get_access id value context db issue expected assignee h =
    let plan : Issue × ℕ × Option Text = (issue, expected, assignee) in
    let (input, _, h1) = bind-eq-ok (body value) _ plan h in
    let (n, _, h2) = bind-eq-ok (expected_version input) _ plan h1 in
    let (seen, visible, h3) =
      bind-eq-ok (require_visible_issue get_access id context true db) _ plan h2 in
    let (u, version, h4) = bind-eq-ok (assert_expected_version seen n) _ plan h3 in
    let (a, _, h5) =
      bind-eq-ok (optional_uuid (get "assigneeUserId" input) "assigneeUserId") _ plan h4 in
    let (u', granted, h6) =
      bind-eq-ok (member_access get_access seen.project_id a context) _ plan h5 in
    let same : seen ≡ issue = ground (arith, h6) in
    let same_a : a ≡ assignee = ground (arith, h6) in
    (
      Planned-seen get_access id context db seen issue n expected visible version same
          (ground (arith, h6)),
      subst (λ (i : Issue). member_access get_access i.project_id assignee context ≡ ok tt) same
          (subst (λ (x : Option Text). member_access get_access seen.project_id x context ≡ ok tt)
            same_a granted),
    )

-- An assignee, if there is one, has been granted access to the project.
member_access_granted :
    (get_access : ProjectAccess) (project_id : Text) (assignee : Option Text)
    (context : RequestContext)
    → member_access get_access project_id assignee context ≡ ok tt
    → (assignee ≡ none)
      ⊎ ((user : Text) × (access : ProjectAccessContext) × (assignee ≡ some user)
          × (get_access project_id user context.correlation_id ≡ ok access))
member_access_granted get_access project_id none context h = inl refl
member_access_granted get_access project_id (some user) context h =
    let (access, granted, _) =
      bind-eq-ok (get_access project_id user context.correlation_id) _ tt h in
    inr (user, access, refl, granted)

-- If the database was valid when the request read it, an assignment that succeeds finds the issue
-- as it was read, whatever operations on issues and on the outbox ran since, and changes only its
-- assignee, version and time of update; no other issue changes, and one event and one history row
-- are added. The user had access to the project, which was not archived; and the project service
-- granted the new assignee, if there is one, access to it too.
pub assign_issue_safe :
    (get_access : ProjectAccess) (context : RequestContext) (env : Env) (id : Text) (value : Value)
    (rs : List Request) (read : Db) (row : Issue) (db' : Db)
    → IsValid read
    → assign_issue get_access context env id value read (run rs read) ≡ (ok row, db')
    → (issue : Issue) × Granted get_access context true issue
      × ((row.assignee_user_id ≡ none)
          ⊎ ((user : Text) × (access : ProjectAccessContext) × (row.assignee_user_id ≡ some user)
              × (get_access issue.project_id user context.correlation_id ≡ ok access)))
      × WrittenAsRead read
          (run rs read)
          db'
          (λ r. record r {
            assignee_user_id = row.assignee_user_id;
            version = r.version + 1;
            updated_at = env.db_now;
          })
          issue
          row
unfolding assign_issue next_version
assign_issue_safe get_access context env id value rs read row db' v h =
    let ((issue, expected, a), planned, k) =
      carry_out_ok (assign_plan get_access id value context read)
        (λ plan. Writes.assign_issue env plan.0 plan.1 plan.2 context.user_id) (run rs read) row db'
        h in
    let (there, member) =
      assign_plan_ok get_access id value context read issue expected a planned in
    let w =
      assign_issue_ok env issue expected a context.user_id (run rs read) row db'
        (run-IsValid rs read v).unique k in
    let to : row.assignee_user_id ≡ a =
      ap (λ r. r.assignee_user_id) w.3 ∙ next_version-assignee env.db_now a w.0 in
    (
      issue,
      there.1,
      member_access_granted get_access issue.project_id row.assignee_user_id context (
          subst (λ (x : Option Text). member_access get_access issue.project_id x context ≡ ok tt)
            (sym to) member),
      subst
          (λ (x : Option Text).
            WrittenAsRead read (run rs read) db'
              (λ r. record r {
                assignee_user_id = x;
                version = r.version + 1;
                updated_at = env.db_now;
              })
              issue row)
          (sym to) (Written-as_read rs read db' _ issue row expected v there.0 there.2 w),
    )
