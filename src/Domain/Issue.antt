-- ===== src/Domain/Issue.antt =====
-- apps/issue-service-nest/src/domain/issue.ts: the data of an issue and the status workflow.
-- Dates are counts of microseconds.
pub mod Workflow
use Prim.Native.String.{String}
use jira_microservices_lab.Common.{
  ℕ, ◌≡◌, refl, Bool, true, false, ◌&&◌, ◌||◌, not, Option, none, some, List, [], ◌∷◌, ◌++◌, map,
  Text, codes, text_eq, trim, upper, lower, decimal, length, ltb, leb, ◌==◌, if◌then◌else◌, arith,
}
use jira_microservices_lab.Json.{
  Value, Fields, Items, str, arr, obj, nil, cons, end, field, as_text, is_nullish, items_of,
}
use jira_microservices_lab.Domain.Errors.{
  Error, Result, ok, err, domain, DomainError, validation_error,
}
use jira_microservices_lab.Domain.Values.{EnumName}

pub data IssueType : Type 0 where
  task bug story : IssueType

pub data IssuePriority : Type 0 where
  low medium high critical : IssuePriority

pub data IssueStatus : Type 0 where
  todo in_progress done : IssueStatus

abbrev pub type_name : IssueType → String
type_name task = "TASK"
type_name bug = "BUG"
type_name story = "STORY"

abbrev pub priority_name : IssuePriority → String
priority_name low = "LOW"
priority_name medium = "MEDIUM"
priority_name high = "HIGH"
priority_name critical = "CRITICAL"

abbrev pub status_name : IssueStatus → String
status_name todo = "TODO"
status_name in_progress = "IN_PROGRESS"
status_name done = "DONE"

instance abbrev pub issue_type_name : EnumName IssueType
issue_type_name = record { name = type_name }

instance abbrev pub issue_priority_name : EnumName IssuePriority
issue_priority_name = record { name = priority_name }

instance abbrev pub issue_status_name : EnumName IssueStatus
issue_status_name = record { name = status_name }

abbrev pub issue_types : List IssueType
issue_types = task ∷ bug ∷ story ∷ []

abbrev pub issue_priorities : List IssuePriority
issue_priorities = low ∷ medium ∷ high ∷ critical ∷ []

abbrev pub issue_statuses : List IssueStatus
issue_statuses = todo ∷ in_progress ∷ done ∷ []

pub record Issue : Type 0 where
  pub id : Text
  pub project_id : Text
  pub number : ℕ
  pub key : Text
  pub summary : Text
  pub description : Option Text
  pub type : IssueType
  pub priority : IssuePriority
  pub status : IssueStatus
  pub reporter_user_id : Text
  pub assignee_user_id : Option Text
  pub epic_id : Option Text
  pub sprint_id : Option Text
  pub version : ℕ
  pub created_at : ℕ
  pub updated_at : ℕ

pub record IssueComment : Type 0 where
  pub id : Text
  pub issue_id : Text
  pub author_user_id : Text
  pub body : Text
  pub created_at : ℕ
  pub updated_at : ℕ

pub record IssueHistory : Type 0 where
  pub id : Text
  pub issue_id : Text
  pub actor_user_id : Text
  pub action : Text
  pub from_value : Value
  pub to_value : Value
  pub created_at : ℕ

-- A transition that has passed `assert_transition`: its fields are made nowhere else.
pub record ValidatedIssueTransition : Type 0 where
  pub from : IssueStatus
  pub to : IssueStatus

unfoldable pub transitions : IssueStatus → List IssueStatus
transitions todo = in_progress ∷ []
transitions in_progress = todo ∷ done ∷ []
transitions done = in_progress ∷ []

abbrev pub status_eq : IssueStatus → IssueStatus → Bool
status_eq todo todo = true
status_eq in_progress in_progress = true
status_eq done done = true
status_eq _ _ = false

abbrev includes : IssueStatus → List IssueStatus → Bool
includes s [] = false
includes s (t ∷ ts) = if status_eq s t then true else includes s ts

status_value : IssueStatus → Value
status_value s = str (codes (status_name s))

unfoldable pub invalid_transition : IssueStatus → IssueStatus → Error
unfolding status_value transitions
invalid_transition from to = domain (record {
  status = 409;
  code = codes "INVALID_ISSUE_TRANSITION";
  message =
      codes "Issue cannot transition from "
      ++ codes (status_name from)
      ++ codes " to "
      ++ codes (status_name to);
  details = field "from" (status_value from) (
      field "to" (status_value to)
        (field "allowed" (arr (items_of (map status_value (transitions from)))) end));
})

unfoldable pub assert_transition : IssueStatus → IssueStatus → Result ValidatedIssueTransition
unfolding transitions
assert_transition from to =
    if status_eq from to || not (includes to (transitions from))
    then err (invalid_transition from to)
    else ok (record { from = from; to = to })
