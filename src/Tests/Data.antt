-- ===== src/Tests/Data.antt =====
-- A project with one issue, and the requests that the tests make of it.
use jira_microservices_lab.Common.{refl, Text, codes, Bool, ◌==◌, length, none, [], ◌∷◌}
use jira_microservices_lab.Json.{Value, Fields, str, num, nat, obj, end, field}
use jira_microservices_lab.Domain.Errors.{ok}
use jira_microservices_lab.Domain.Issue.{Issue, task, low}
use jira_microservices_lab.Repository.Db.{Db, Env}
use jira_microservices_lab.Repository.Table.{find_row}
use jira_microservices_lab.Repository.Writes.{NewIssueData, new_row}
use jira_microservices_lab.Repository.Invariant.{IsValid, versions_of, changes_of}
use jira_microservices_lab.Repository.Steps.{create, run, run-IsValid}
use jira_microservices_lab.Application.Access.{
  ProjectAccess, ProjectAccessContext, RequestContext, active, member,
}

abbrev pub project_id : Text
project_id = codes "aaaaaaaa-aaaa-4aaa-8aaa-aaaaaaaaaaaa"

abbrev pub issue_id : Text
issue_id = codes "bbbbbbbb-bbbb-4bbb-8bbb-bbbbbbbbbbbb"

abbrev pub alice : Text
alice = codes "cccccccc-cccc-4ccc-8ccc-cccccccccccc"

abbrev pub bob : Text
bob = codes "dddddddd-dddd-4ddd-8ddd-dddddddddddd"

abbrev pub empty_db : Db
empty_db = record {
  sequences = [];
  issues = [];
  comments = [];
  history = [];
  outbox = [];
  epics = [];
  sprints = [];
}

pub empty_db-IsValid : IsValid empty_db
unfolding find_row versions_of changes_of
empty_db-IsValid = record {
  unique = tt;
  event_per_version = λ id. refl;
  change_per_version = λ id. refl;
}

abbrev has_uuid_length : Text → Bool
has_uuid_length t = length t == 36

abbrev pub first_env : Env
first_env = record {
  is_uuid = has_uuid_length;
  row_id = issue_id;
  history_id = codes "h1";
  event_id = codes "e1";
  row_now = 10;
  history_now = 11;
  event_now = 12;
  db_now = 13;
  trace_context = end;
}

abbrev pub second_env : Env
second_env = record {
  is_uuid = has_uuid_length;
  row_id = codes "c2";
  history_id = codes "h2";
  event_id = codes "e2";
  row_now = 20;
  history_now = 21;
  event_now = 22;
  db_now = 23;
  trace_context = end;
}

abbrev pub new_issue : NewIssueData
new_issue = record {
  project_id = project_id;
  project_key = codes "P";
  summary = codes "Fix it";
  description = none;
  type = task;
  priority = low;
  reporter_user_id = alice;
  assignee_user_id = none;
  epic_id = none;
  sprint_id = none;
}

abbrev pub first_issue : Issue
first_issue = new_row first_env new_issue 1

-- The database after the first issue was created.
abbrev pub one_issue : Db
one_issue = run (create first_env new_issue ∷ []) empty_db

pub one_issue-IsValid : IsValid one_issue
one_issue-IsValid = run-IsValid (create first_env new_issue ∷ []) empty_db empty_db-IsValid

abbrev pub membership : ProjectAccessContext
membership = record {
  project_id = project_id;
  workspace_id = codes "w";
  project_key = codes "P";
  project_status = active;
  membership_role = member;
}

-- Everybody is a member of the project, which is active.
abbrev pub open_access : ProjectAccess
open_access project user correlation = ok membership

abbrev pub by_alice : RequestContext
by_alice = record { user_id = alice; correlation_id = codes "r" }

abbrev pub versioned : Fields → Value
versioned fields = obj (field "expectedVersion" (num (nat 1)) fields)

abbrev pub start_body : Value
start_body = versioned (field "status" (str (codes "in_progress")) end)

abbrev pub assign_body : Value
assign_body = versioned (field "assigneeUserId" (str bob) end)

abbrev pub patch_body : Value
patch_body = versioned (field "summary" (str (codes " Fix it now ")) end)

abbrev pub comment_body : Value
comment_body = obj (field "body" (str (codes "Done?")) end)
