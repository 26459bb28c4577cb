-- ===== src/Application/Handlers.antt =====
-- apps/issue-service-nest/src/application/issue-application.service.ts: the handlers. A handler
-- that writes reads in one state of the tables, `read`, and writes in a later one, `write`: what
-- other requests do in between is not fixed.
use jira_microservices_lab.Common.{Text}
use jira_microservices_lab.Json.{Value}
use jira_microservices_lab.Domain.Errors.{Result, ok, err}
use jira_microservices_lab.Domain.Issue.{Issue, IssueComment}
use jira_microservices_lab.Repository.Db.{Db, Env}
use jira_microservices_lab.Repository.Writes
use jira_microservices_lab.Repository.Reads
use jira_microservices_lab.Common.{List}
use jira_microservices_lab.Domain.Issue.{IssueHistory}
use jira_microservices_lab.Domain.Errors.{◌>>=◌}
use jira_microservices_lab.Application.Access.{ProjectAccess, RequestContext, require_visible_issue}
use jira_microservices_lab.Application.Plans.{
  UpdatePlan, read_only, change, create_plan, update_plan, assign_plan, transition_plan,
  comment_plan,
}
use mathlib.Core.Bool.{false}

-- Write what was planned, or throw and write nothing.
abbrev pub carry_out : {A B : Type 0} → Result A → (A → Db → Result B × Db) → Db → Result B × Db
carry_out (ok a) f write = f a write
carry_out (err e) f write = (err e, write)

abbrev pub write_update : Env → Text → UpdatePlan → Db → Result Issue × Db
write_update env user_id (read_only issue) write = (ok issue, write)
write_update env user_id (change issue expected given) write =
    Writes.update_issue env issue expected given user_id write

module _ (get_access : ProjectAccess) (context : RequestContext) (env : Env) where
  unfoldable pub create_issue : Text → Value → Db → Db → Result Issue × Db
  create_issue project_id_value body_value read write =
      carry_out (create_plan get_access project_id_value body_value context read)
        (Writes.create_issue env) write

  unfoldable pub update_issue : Text → Value → Db → Db → Result Issue × Db
  update_issue issue_id_value body_value read write =
      carry_out (update_plan get_access issue_id_value body_value context read)
        (write_update env context.user_id) write

  unfoldable pub assign_issue : Text → Value → Db → Db → Result Issue × Db
  assign_issue issue_id_value body_value read write =
      carry_out (assign_plan get_access issue_id_value body_value context read)
        (λ plan. Writes.assign_issue env plan.0 plan.1 plan.2 context.user_id) write

  unfoldable pub transition_issue : Text → Value → Db → Db → Result Issue × Db
  transition_issue issue_id_value body_value read write =
      carry_out (transition_plan get_access issue_id_value body_value context read)
        (λ plan. Writes.transition_issue env plan.0 plan.1 plan.2 context.user_id) write

  unfoldable pub add_comment : Text → Value → Db → Db → Result IssueComment × Db
  add_comment issue_id_value body_value read write =
      carry_out (comment_plan get_access issue_id_value body_value context read)
        (λ plan. Writes.add_comment env plan.0 context.user_id plan.1) write

-- `getIssue` only reads.
unfoldable pub get_issue : ProjectAccess → Text → RequestContext → Db → Result Issue
get_issue get_access issue_id_value context db =
    require_visible_issue get_access issue_id_value context false db

unfoldable pub list_comments :
    ProjectAccess → Text → RequestContext → Db → Result (List IssueComment)
list_comments get_access issue_id_value context db = do
  issue ← require_visible_issue get_access issue_id_value context false db
  ok (Reads.list_comments issue.id db)

unfoldable pub list_history :
    ProjectAccess → Text → RequestContext → Db → Result (List IssueHistory)
list_history get_access issue_id_value context db = do
  issue ← require_visible_issue get_access issue_id_value context false db
  ok (Reads.list_history issue.id db)
