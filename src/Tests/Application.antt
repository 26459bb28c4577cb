-- ===== src/Tests/Application.antt =====
-- The handlers, run on the database with one issue while a request of the outbox comes between
-- their reads and their writes.
use jira_microservices_lab.Common.{
  ◌+◌, ◌≡◌, refl, ◌⊎◌, codes, Bool, Text, true, none, some, List, [], ◌∷◌, ◌++◌,
}
use jira_microservices_lab.Json.{Fields, has_own}
use jira_microservices_lab.Domain.Errors.{ok}
use jira_microservices_lab.Domain.Issue.{Issue, IssueComment, in_progress}
use jira_microservices_lab.Domain.Issue.Workflow.{Edge}
use jira_microservices_lab.Repository.Db.{Db}
use jira_microservices_lab.Repository.Table.{find_row}
use jira_microservices_lab.Repository.Statements.{next_version}
use jira_microservices_lab.Repository.Writes.{
  UpdateIssueData, set_status, set_assignee, set_details, comment_row,
}
use jira_microservices_lab.Repository.Steps.{Request, claim, run}
use jira_microservices_lab.Application.Access.{ProjectAccessContext}
use jira_microservices_lab.Application.Input.{body}
use jira_microservices_lab.Application.Plans.{patched}
use jira_microservices_lab.Application.Handlers.{
  transition_issue, assign_issue, update_issue, add_comment,
}
use jira_microservices_lab.Application.Visibility.{Granted}
use jira_microservices_lab.Application.Concurrency.{WrittenAsRead}
use jira_microservices_lab.Application.Concurrency.Transition.{transition_issue_safe}
use jira_microservices_lab.Application.Concurrency.Assign.{assign_issue_safe}
use jira_microservices_lab.Application.Concurrency.Patch.{update_issue_safe}
use jira_microservices_lab.Application.Concurrency.Comment.{add_comment_safe}
use jira_microservices_lab.Tests.Running.{code}
use jira_microservices_lab.Tests.Data.{
  issue_id, second_env, one_issue, one_issue-IsValid, first_issue, open_access, by_alice, bob,
  start_body, assign_body, patch_body, comment_body,
}

abbrev meanwhile : List Request
meanwhile = claim 50 (λ id. Bool.false) 100 ∷ []

abbrev later_db : Db
later_db = run meanwhile one_issue

abbrev started : Issue
started = next_version 23 (set_status in_progress) first_issue

abbrev after_start : Db
after_start =
    (transition_issue open_access by_alice second_env issue_id start_body one_issue later_db).1

started_now :
    transition_issue open_access by_alice second_env issue_id start_body one_issue later_db
    ≡ (ok started, after_start)
unfolding code
started_now = refl

transition_issue_safe_example :
    (issue : Issue) × Granted open_access by_alice true issue
    × Edge issue.status started.status
    × WrittenAsRead one_issue later_db after_start
        (λ r. record r { status = started.status; version = r.version + 1; updated_at = 23 })
        issue
        started
transition_issue_safe_example =
    transition_issue_safe open_access by_alice second_env issue_id start_body meanwhile one_issue
      started after_start one_issue-IsValid started_now

abbrev assigned : Issue
assigned = next_version 23 (set_assignee (some bob)) first_issue

abbrev after_assign : Db
after_assign =
    (assign_issue open_access by_alice second_env issue_id assign_body one_issue later_db).1

assigned_now :
    assign_issue open_access by_alice second_env issue_id assign_body one_issue later_db
    ≡ (ok assigned, after_assign)
unfolding code
assigned_now = refl

assign_issue_safe_example :
    (issue : Issue) × Granted open_access by_alice true issue
    × ((assigned.assignee_user_id ≡ none)
        ⊎ ((user : Text) × (access : ProjectAccessContext) × (assigned.assignee_user_id ≡ some user)
            × (open_access issue.project_id user by_alice.correlation_id ≡ ok access)))
    × WrittenAsRead one_issue later_db after_assign
        (λ r. record r {
          assignee_user_id = assigned.assignee_user_id;
          version = r.version + 1;
          updated_at = 23;
        })
        issue
        assigned
assign_issue_safe_example =
    assign_issue_safe open_access by_alice second_env issue_id assign_body meanwhile one_issue
      assigned after_assign one_issue-IsValid assigned_now

abbrev details : UpdateIssueData
details = record {
  summary = codes "Fix it now";
  description = first_issue.description;
  type = first_issue.type;
  priority = first_issue.priority;
}

abbrev patched_issue : Issue
patched_issue = next_version 23 (set_details details) first_issue

abbrev after_patch : Db
after_patch =
    (update_issue open_access by_alice second_env issue_id patch_body one_issue later_db).1

patched_now :
    update_issue open_access by_alice second_env issue_id patch_body one_issue later_db
    ≡ (ok patched_issue, after_patch)
unfolding code
patched_now = refl

update_issue_safe_example :
    ((input : Fields) × (body patch_body ≡ ok input)
      × (has_own "summary" input ≡ Bool.false)
      × (has_own "description" input ≡ Bool.false)
      × (has_own "type" input ≡ Bool.false)
      × (has_own "priority" input ≡ Bool.false)
      × (after_patch ≡ later_db)
      × (find_row patched_issue.id one_issue.issues ≡ some patched_issue)
      × Granted open_access by_alice Bool.false patched_issue)
    ⊎ ((issue : Issue) × (input : Fields) × (given : UpdateIssueData) × Granted open_access by_alice
          true issue
        × (body patch_body ≡ ok input)
        × (patched issue input ≡ ok given)
        × WrittenAsRead one_issue later_db after_patch
            (λ r. record r {
              summary = given.summary;
              description = given.description;
              type = given.type;
              priority = given.priority;
              version = r.version + 1;
              updated_at = 23;
            })
            issue
            patched_issue)
update_issue_safe_example =
    update_issue_safe open_access by_alice second_env issue_id patch_body meanwhile one_issue
      patched_issue after_patch one_issue-IsValid patched_now

abbrev commented : IssueComment
commented = comment_row second_env first_issue by_alice.user_id (codes "Done?")

abbrev after_comment : Db
after_comment =
    (add_comment open_access by_alice second_env issue_id comment_body one_issue later_db).1

commented_now :
    add_comment open_access by_alice second_env issue_id comment_body one_issue later_db
    ≡ (ok commented, after_comment)
unfolding code
commented_now = refl

add_comment_safe_example :
    (issue row : Issue) × Granted open_access by_alice true issue
    × WrittenAsRead one_issue later_db after_comment
        (λ r. record r { version = r.version + 1; updated_at = 23 })
        issue
        row
    × (commented ≡ comment_row second_env issue by_alice.user_id commented.body)
    × (after_comment.comments ≡ later_db.comments ++ commented ∷ [])
add_comment_safe_example =
    add_comment_safe open_access by_alice second_env issue_id comment_body meanwhile one_issue
      commented after_comment one_issue-IsValid commented_now
