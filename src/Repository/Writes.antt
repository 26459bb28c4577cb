-- ===== src/Repository/Writes.antt =====
-- apps/issue-service-nest/src/infrastructure/postgres-issue.repository.ts: the operations that write
-- issues, each one transaction.
use jira_microservices_lab.Common.{ℕ, Text, codes, decimal, Option, ◌++◌}
use jira_microservices_lab.Json.{null}
use jira_microservices_lab.Domain.Errors.{Result}
use jira_microservices_lab.Domain.Issue.{
  Issue, IssueComment, IssueType, IssuePriority, IssueStatus, todo, ValidatedIssueTransition,
}
use jira_microservices_lab.Repository.Db.{Db, Env, Tx, pure, ◌>>=◌, ◌>>◌, transaction}
use jira_microservices_lab.Repository.Statements.{
  next_number, insert_issue, insert_history, insert_event, insert_comment, update_with_version,
}
use jira_microservices_lab.Repository.Payloads.{
  created_value, created_payload, details_value, updated_payload, assignee_value, assigned_payload,
  status_object, transitioned_payload, comment_value, commented_payload,
}

pub record NewIssueData : Type 0 where
  pub project_id : Text
  pub project_key : Text
  pub summary : Text
  pub description : Option Text
  pub type : IssueType
  pub priority : IssuePriority
  pub reporter_user_id : Text
  pub assignee_user_id : Option Text
  pub epic_id : Option Text
  pub sprint_id : Option Text

pub record UpdateIssueData : Type 0 where
  pub summary : Text
  pub description : Option Text
  pub type : IssueType
  pub priority : IssuePriority

abbrev key_of : Text → ℕ → Text
key_of project_key number = project_key ++ codes "-" ++ decimal number

abbrev pub new_row : Env → NewIssueData → ℕ → Issue
new_row env given number = record {
  id = env.row_id;
  project_id = given.project_id;
  number = number;
  key = key_of given.project_key number;
  summary = given.summary;
  description = given.description;
  type = given.type;
  priority = given.priority;
  status = todo;
  reporter_user_id = given.reporter_user_id;
  assignee_user_id = given.assignee_user_id;
  epic_id = given.epic_id;
  sprint_id = given.sprint_id;
  version = 1;
  created_at = env.row_now;
  updated_at = env.row_now;
}

-- The work of `createIssue` inside its transaction.
unfoldable pub create_work : Env → NewIssueData → Tx Issue
unfolding next_number insert_issue insert_history insert_event created_value created_payload
create_work env given = do
  number ← next_number given.project_id
  issue ← insert_issue env (new_row env given number)
  insert_history env issue given.reporter_user_id "CREATED" null (created_value issue)
  insert_event env issue given.reporter_user_id "issue.created"
      (created_payload issue given.reporter_user_id)
  pure issue

unfoldable pub create_issue : Env → NewIssueData → Db → Result Issue × Db
unfolding create_work transaction
create_issue env given = transaction (create_work env given)

-- summary = $1, description = $2, type = $3, priority = $4
abbrev pub set_details : UpdateIssueData → Issue → Issue
set_details given r = record r {
  summary = given.summary;
  description = given.description;
  type = given.type;
  priority = given.priority;
}

unfoldable pub update_work : Env → Issue → ℕ → UpdateIssueData → Text → Tx Issue
unfolding update_with_version insert_history insert_event details_value updated_payload
update_work env issue expected_version given actor_user_id = do
  updated ← update_with_version env issue expected_version (set_details given)
  insert_history env updated actor_user_id "UPDATED" (details_value issue) (details_value updated)
  insert_event env updated actor_user_id "issue.updated"
      (updated_payload issue updated actor_user_id)
  pure updated

unfoldable pub update_issue : Env → Issue → ℕ → UpdateIssueData → Text → Db → Result Issue × Db
unfolding update_work transaction
update_issue env issue expected_version given actor_user_id =
    transaction (update_work env issue expected_version given actor_user_id)

-- assignee_user_id = $1
abbrev pub set_assignee : Option Text → Issue → Issue
set_assignee assignee_user_id r = record r { assignee_user_id = assignee_user_id }

unfoldable pub assign_work : Env → Issue → ℕ → Option Text → Text → Tx Issue
unfolding update_with_version insert_history insert_event assignee_value assigned_payload
assign_work env issue expected_version assignee_user_id actor_user_id = do
  updated ← update_with_version env issue expected_version (set_assignee assignee_user_id)
  insert_history env updated actor_user_id "ASSIGNEE_CHANGED"
      (assignee_value issue.assignee_user_id) (assignee_value assignee_user_id)
  insert_event env updated actor_user_id "issue.assigned"
      (assigned_payload issue updated assignee_user_id actor_user_id)
  pure updated

unfoldable pub assign_issue : Env → Issue → ℕ → Option Text → Text → Db → Result Issue × Db
unfolding assign_work transaction
assign_issue env issue expected_version assignee_user_id actor_user_id =
    transaction (assign_work env issue expected_version assignee_user_id actor_user_id)

-- status = $1
abbrev pub set_status : IssueStatus → Issue → Issue
set_status status r = record r { status = status }

unfoldable pub transition_work : Env → Issue → ℕ → ValidatedIssueTransition → Text → Tx Issue
unfolding update_with_version insert_history insert_event status_object transitioned_payload
transition_work env issue expected_version transition actor_user_id = do
  updated ← update_with_version env issue expected_version (set_status transition.to)
  insert_history env updated actor_user_id "STATUS_CHANGED" (status_object transition.from)
      (status_object transition.to)
  insert_event env updated actor_user_id "issue.transitioned"
      (transitioned_payload updated transition actor_user_id)
  pure updated

unfoldable pub transition_issue :
    Env → Issue → ℕ → ValidatedIssueTransition → Text → Db → Result Issue × Db
unfolding transition_work transaction
transition_issue env issue expected_version transition actor_user_id =
    transaction (transition_work env issue expected_version transition actor_user_id)

-- summary = summary
abbrev pub set_nothing : Issue → Issue
set_nothing r = r

abbrev pub comment_row : Env → Issue → Text → Text → IssueComment
comment_row env issue author_user_id body = record {
  id = env.row_id;
  issue_id = issue.id;
  author_user_id = author_user_id;
  body = body;
  created_at = env.row_now;
  updated_at = env.row_now;
}

unfoldable pub comment_work : Env → Issue → Text → Text → Tx IssueComment
unfolding update_with_version insert_comment insert_history insert_event comment_value
    commented_payload
comment_work env issue author_user_id body = do
  updated ← update_with_version env issue issue.version set_nothing
  comment ← insert_comment env (comment_row env issue author_user_id body)
  insert_history env updated author_user_id "COMMENT_ADDED" null (comment_value comment)
  insert_event env updated author_user_id "issue.commented"
      (commented_payload issue comment author_user_id body)
  pure comment

unfoldable pub add_comment : Env → Issue → Text → Text → Db → Result IssueComment × Db
unfolding comment_work transaction
add_comment env issue author_user_id body = transaction (comment_work env issue author_user_id body)
