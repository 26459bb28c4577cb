-- ===== src/Application/Concurrency/Comment.antt =====
-- apps/issue-service-nest/src/application/issue-application.service.ts: a new comment,
-- among other requests.
use jira_microservices_lab.Common.{◌+◌, ◌≡◌, refl, ap, sym, ◌∙◌, Text, true, some, List, arith}
use jira_microservices_lab.Json.{Value, get}
use jira_microservices_lab.Domain.Errors.{ok}
use jira_microservices_lab.Domain.Issue.{Issue, IssueComment, issue_status_name}
use jira_microservices_lab.Repository.Db.{Db, Env}
use jira_microservices_lab.Repository.Table.{find_row}
use jira_microservices_lab.Repository.Statements.{next_version}
use jira_microservices_lab.Repository.Writes.{
  UpdateIssueData, set_details, set_assignee, set_status, set_nothing, comment_row,
}
use jira_microservices_lab.Repository.Operations.{add_comment_ok}
use jira_microservices_lab.Repository.Invariant.{IsValid}
use jira_microservices_lab.Repository.Steps.{Request, run, run-IsValid}
use jira_microservices_lab.Application.Access.{ProjectAccess, RequestContext, require_visible_issue}
use jira_microservices_lab.Application.Input.{body}
use jira_microservices_lab.Application.Plans.{comment_plan}
use jira_microservices_lab.Repository.Writes
use jira_microservices_lab.Application.Handlers.{add_comment}
use jira_microservices_lab.Application.Visibility.{bind-eq-ok, Granted, require_visible_issue_ok}
use jira_microservices_lab.Application.Concurrency.{carry_out_ok, WrittenAsRead, Written-as_read}
use jira_microservices_lab.Domain.Values.{required_text}
use jira_microservices_lab.Common.{[], ◌∷◌, ◌++◌}

comment_plan_ok :
    (get_access : ProjectAccess) (id : Text) (value : Value) (context : RequestContext) (db : Db)
    (issue : Issue) (text : Text)
    → comment_plan get_access id value context db ≡ ok (issue, text)
    → (find_row issue.id db.issues ≡ some issue) × Granted get_access context true issue
unfolding comment_plan
comment_plan_ok get_access id value context db issue text h =
    let plan : Issue × Text = (issue, text) in
    let (seen, visible, h1) =
      bind-eq-ok (require_visible_issue get_access id context true db) _ plan h in
    let (input, _, h2) = bind-eq-ok (body value) _ plan h1 in
    let (t, _, h3) = bind-eq-ok (required_text (get "body" input) "body" 5000) _ plan h2 in
    let same : seen ≡ issue = ground (arith, h3) in
    require_visible_issue_ok get_access id context true db issue (visible ∙ ap ok same)

-- If the database was valid when the request read it, a comment that succeeds finds the issue as
-- it was read, whatever operations on issues and on the outbox ran since, and gives it its next
-- version and a new time of update; no other issue changes, one event and one history row are
-- added, and the comment is stored at the end of the comments. The user had access to the
-- project, which was not archived.
pub add_comment_safe :
    (get_access : ProjectAccess) (context : RequestContext) (env : Env) (id : Text) (value : Value)
    (rs : List Request) (read : Db) (comment : IssueComment) (db' : Db)
    → IsValid read
    → add_comment get_access context env id value read (run rs read) ≡ (ok comment, db')
    → (issue row : Issue) × Granted get_access context true issue
      × WrittenAsRead read
          (run rs read)
          db'
          (λ r. record r { version = r.version + 1; updated_at = env.db_now })
          issue
          row
      × (comment ≡ comment_row env issue context.user_id comment.body)
      × (db'.comments ≡ (run rs read).comments ++ comment ∷ [])
unfolding add_comment next_version
add_comment_safe get_access context env id value rs read comment db' v h =
    let ((issue, text), planned, k) =
      carry_out_ok (comment_plan get_access id value context read)
        (λ plan. Writes.add_comment env plan.0 context.user_id plan.1) (run rs read) comment db'
        h in
    let (there, granted) = comment_plan_ok get_access id value context read issue text planned in
    let (row, w, c, stored) =
      add_comment_ok env issue context.user_id text (run rs read) comment db'
        (run-IsValid rs read v).unique k in
    (
      issue,
      row,
      granted,
      Written-as_read rs read db' _ issue row issue.version v there refl w,
      c ∙ ap (λ t. comment_row env issue context.user_id t) (sym (ap (λ x. x.body) c)),
      stored,
    )
