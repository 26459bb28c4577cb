-- ===== src/Repository/Progress/Decided.antt =====
-- apps/issue-service-nest/src/infrastructure/postgres-issue.repository.ts: the outcomes of
-- `updateIssue`, `assignIssue` and `transitionIssue`.
use jira_microservices_lab.Common.{ℕ, ◌+◌, ◌<◌, ◌≡◌, true, refl, Text, Option}
use jira_microservices_lab.Domain.Issue.{Issue, ValidatedIssueTransition}
use jira_microservices_lab.Repository.Db.{Db, Env, int_max}
use jira_microservices_lab.Repository.Table.{issue_ids, IsUnique}
use jira_microservices_lab.Repository.Statements.{next_version}
use jira_microservices_lab.Repository.Payloads.{
  details_value, updated_payload, assignee_value, assigned_payload, status_object,
  transitioned_payload,
}
use jira_microservices_lab.Repository.Writes.{
  UpdateIssueData, set_details, set_assignee, set_status, update_work, update_issue, assign_work,
  assign_issue, transition_work, transition_issue,
}
use jira_microservices_lab.Repository.Progress.{IsFresh, IsDecided, versioned_write-IsDecided}

-- If the actor is a UUID, each issue stands once, the identifiers drawn are new and the expected
-- version is below the largest INTEGER, `updateIssue` always ends: it returns the stored row with
-- the given details and the next version if the stored version is the expected one, and else it
-- fails as a concurrent modification and writes nothing.
update_issue-IsDecided :
    (env : Env) (issue : Issue) (expected : ℕ) (given : UpdateIssueData) (actor : Text) (db : Db)
    → env.is_uuid actor ≡ true
    → IsUnique (issue_ids db.issues)
    → IsFresh env db
    → expected < int_max
    → IsDecided db issue.id expected
        (next_version env.db_now (set_details given))
        (update_issue env issue expected given actor db)
unfolding update_issue update_work
update_issue-IsDecided env issue expected given actor db named u fresh bound =
    versioned_write-IsDecided env issue expected (set_details given) (λ r. refl) actor "UPDATED"
      "issue.updated" (λ r. details_value issue) details_value (λ r. updated_payload issue r actor)
      db named u fresh bound

-- If the actor is a UUID, each issue stands once, the identifiers drawn are new and the expected
-- version is below the largest INTEGER, `assignIssue` always ends: it returns the stored row with
-- the assignee and the next version if the stored version is the expected one, and else it fails
-- as a concurrent modification and writes nothing.
assign_issue-IsDecided :
    (env : Env) (issue : Issue) (expected : ℕ) (assignee : Option Text) (actor : Text) (db : Db)
    → env.is_uuid actor ≡ true
    → IsUnique (issue_ids db.issues)
    → IsFresh env db
    → expected < int_max
    → IsDecided db issue.id expected
        (next_version env.db_now (set_assignee assignee))
        (assign_issue env issue expected assignee actor db)
unfolding assign_issue assign_work
assign_issue-IsDecided env issue expected assignee actor db named u fresh bound =
    versioned_write-IsDecided env issue expected (set_assignee assignee) (λ r. refl) actor
      "ASSIGNEE_CHANGED" "issue.assigned" (λ r. assignee_value issue.assignee_user_id)
      (λ r. assignee_value assignee) (λ r. assigned_payload issue r assignee actor) db named u fresh
      bound

-- If the actor is a UUID, each issue stands once, the identifiers drawn are new and the expected
-- version is below the largest INTEGER, `transitionIssue` always ends: it returns the stored row
-- with the target status, the next version and a new time of update if the stored version is the
-- expected one, and else it fails as a concurrent modification and writes nothing.
pub transition_issue-IsDecided :
    (env : Env) (issue : Issue) (expected : ℕ) (transition : ValidatedIssueTransition)
    (actor : Text) (db : Db)
    → env.is_uuid actor ≡ true
    → IsUnique (issue_ids db.issues)
    → IsFresh env db
    → expected < int_max
    → IsDecided db issue.id expected
        (λ r. record r { status = transition.to; version = r.version + 1; updated_at = env.db_now })
        (transition_issue env issue expected transition actor db)
unfolding transition_issue transition_work next_version
transition_issue-IsDecided env issue expected transition actor db named u fresh bound =
    versioned_write-IsDecided env issue expected (set_status transition.to) (λ r. refl) actor
      "STATUS_CHANGED" "issue.transitioned" (λ r. status_object transition.from)
      (λ r. status_object transition.to) (λ r. transitioned_payload r transition actor) db named u
      fresh bound
