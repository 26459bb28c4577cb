-- ===== src/Application/Input.antt =====
-- apps/issue-service-nest/src/application/issue-application.service.ts: the checks of a request's
-- body, and of the links from an issue to an epic and a sprint.
use Prim.Native.String.{String}
use jira_microservices_lab.Common.{
  ℕ, Text, codes, text_eq, ◌++◌, ◌&&◌, Option, Bool, true, false, none, some, List, [], ◌∷◌, ltb,
  leb, ◌==◌, any_of, if◌then◌else◌,
}
use jira_microservices_lab.Json.{
  Value, nat, neg, fraction, Fields, undefined, null, bool, num, str, arr, obj, get, has_own,
  as_object,
}
use jira_microservices_lab.Domain.Errors.{
  Result, ok, err, ◌>>◌, require, some_or, validation_error, concurrent_issue_modification,
}
use jira_microservices_lab.Domain.Issue.{Issue}
use jira_microservices_lab.Domain.Planning.{Epic, Sprint}
use jira_microservices_lab.Repository.Db.{Db}
use jira_microservices_lab.Repository.Planning.{find_epic, find_sprint, is_active}

unfoldable pub body : Value → Result Fields
body value = some_or (as_object value) (validation_error "body" (codes "Request body is required"))

-- Number.MAX_SAFE_INTEGER
abbrev pub max_safe : ℕ
max_safe = 9007199254740991

-- A safe integer above 0.
abbrev positive_safe : Value → Option ℕ
positive_safe undefined = none
positive_safe null = none
positive_safe (bool b) = none
positive_safe (num (nat n)) = if ltb 0 n && leb n max_safe then some n else none
positive_safe (num (neg n)) = none
positive_safe (num fraction) = none
positive_safe (str t) = none
positive_safe (arr vs) = none
positive_safe (obj fs) = none

unfoldable pub expected_version : Fields → Result ℕ
expected_version input =
    some_or (positive_safe (get "expectedVersion" input))
      (validation_error "expectedVersion" (codes "expectedVersion must be a positive integer"))

unfoldable pub assert_expected_version : Issue → ℕ → Result (Unit {0})
assert_expected_version issue expected =
    require (issue.version == expected) concurrent_issue_modification

unfoldable pub reject_fields : List String → Fields → Result (Unit {0})
reject_fields [] input = ok tt
reject_fields (name ∷ names) input =
    if has_own name input
    then err (validation_error name (codes name ++ codes " cannot be updated"))
    else reject_fields names input

abbrev pub core_fields : List String
core_fields =
    "status" ∷ "key" ∷ "number" ∷ "reporterUserId" ∷ "projectId" ∷ "issueKey" ∷ "issueNumber" ∷ []

unfoldable pub assert_core_patch_fields : Fields → Result (Unit {0})
unfolding reject_fields
assert_core_patch_fields input = reject_fields core_fields input

unfoldable pub has_core_patch_mutation : Fields → Bool
has_core_patch_mutation input =
    any_of (λ name. has_own name input) ("summary" ∷ "description" ∷ "type" ∷ "priority" ∷ [])

abbrev epic_fits : Text → Option Epic → Bool
epic_fits project_id none = false
epic_fits project_id (some e) = text_eq e.project_id project_id

abbrev sprint_fits : Text → Option Sprint → Bool
sprint_fits project_id none = false
sprint_fits project_id (some s) = text_eq s.project_id project_id && is_active s.status

abbrev epic_link : Text → Option Text → Db → Bool
epic_link project_id none db = true
epic_link project_id (some id) db = epic_fits project_id (find_epic id db.epics)

abbrev sprint_link : Text → Option Text → Db → Bool
sprint_link project_id none db = true
sprint_link project_id (some id) db = sprint_fits project_id (find_sprint id db.sprints)

unfoldable pub assert_planning_links : Text → Option Text → Option Text → Db → Result (Unit {0})
assert_planning_links project_id epic_id sprint_id db = do
  require (epic_link project_id epic_id db)
      (validation_error "epicId" (codes "epicId must belong to this project"))
  require (sprint_link project_id sprint_id db)
      (validation_error "sprintId" (codes "sprintId must be an active sprint in this project"))
