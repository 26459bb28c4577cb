-- ===== src/Application/Plans.antt =====
-- apps/issue-service-nest/src/application/issue-application.service.ts: what each handler checks
-- and reads before it writes. The reads of one request see one state `db` of the database.
use jira_microservices_lab.Common.{ℕ, Text, Option, Bool, true, false, none, some, if◌then◌else◌}
use jira_microservices_lab.Json.{Value, Fields, str, get, has_own, is_undefined}
use jira_microservices_lab.Domain.Errors.{Result, ok, ◌>>=◌, ◌>>◌}
use jira_microservices_lab.Domain.Issue.{
  Issue, ValidatedIssueTransition, issue_types, issue_priorities, issue_statuses, assert_transition,
  issue_type_name, issue_priority_name, issue_status_name,
}
use jira_microservices_lab.Domain.Values.{
  uuid, optional_uuid, required_text, optional_text, enum_value,
}
use jira_microservices_lab.Repository.Db.{Db}
use jira_microservices_lab.Repository.Writes.{NewIssueData, UpdateIssueData}
use jira_microservices_lab.Application.Access.{
  ProjectAccess, RequestContext, require_visible_issue, require_writable_project,
}
use jira_microservices_lab.Application.Input.{
  body, expected_version, assert_expected_version, assert_core_patch_fields,
  has_core_patch_mutation, assert_planning_links,
}

-- `input.field === undefined ? old : validate(input.field)`
abbrev given_or {ℓ} : {A : Type ℓ} → Value → A → Result A → Result A
given_or value old validated = if is_undefined value then ok old else validated

-- A patch without one of the four fields reads the issue; any other changes it.
pub data UpdatePlan : Type 0 where
  read_only : Issue → UpdatePlan
  change : Issue → ℕ → UpdateIssueData → UpdatePlan

-- `if (hasOwnProperty(input, 'expectedVersion')) this.expectedVersion(input)`
abbrev pub version_if_given : Fields → Result (Unit {0})
version_if_given input =
    if has_own "expectedVersion" input then (expected_version input >>= λ n. ok tt) else ok tt

-- The details that an update stores: those given, validated, and the old ones for the rest.
unfoldable pub patched : Issue → Fields → Result UpdateIssueData
patched issue input = do
  summary ←
      given_or (get "summary" input) issue.summary
        (required_text (get "summary" input) "summary" 200)
  description ←
      given_or (get "description" input) issue.description
        (optional_text (get "description" input) "description" 5000)
  type ← given_or (get "type" input) issue.type (enum_value (get "type" input) "type" issue_types)
  priority ←
      given_or (get "priority" input) issue.priority
        (enum_value (get "priority" input) "priority" issue_priorities)
  ok (record { summary = summary; description = description; type = type; priority = priority })

module _ (get_access : ProjectAccess) where
  -- `if (userId) await this.projects.getAccess(projectId, userId, correlationId)`
  abbrev pub member_access : Text → Option Text → RequestContext → Result (Unit {0})
  member_access project_id none context = ok tt
  member_access project_id (some user_id) context =
      get_access project_id user_id context.correlation_id >>= λ access. ok tt

  unfoldable pub create_plan : Text → Value → RequestContext → Db → Result NewIssueData
  create_plan project_id_value body_value context db = do
    project_id ← uuid (str project_id_value) "projectId"
    input ← body body_value
    access ← require_writable_project get_access project_id context
    assignee_user_id ← optional_uuid (get "assigneeUserId" input) "assigneeUserId"
    epic_id ← optional_uuid (get "epicId" input) "epicId"
    sprint_id ← optional_uuid (get "sprintId" input) "sprintId"
    member_access project_id assignee_user_id context
    assert_planning_links project_id epic_id sprint_id db
    summary ← required_text (get "summary" input) "summary" 200
    description ← optional_text (get "description" input) "description" 5000
    type ← enum_value (get "type" input) "type" issue_types
    priority ← enum_value (get "priority" input) "priority" issue_priorities
    ok (record {
      project_id = project_id;
      project_key = access.project_key;
      summary = summary;
      description = description;
      type = type;
      priority = priority;
      reporter_user_id = context.user_id;
      assignee_user_id = assignee_user_id;
      epic_id = epic_id;
      sprint_id = sprint_id;
    })

  -- The two ways on from the test for a field to change.
  unfoldable pub update_branch : Bool → Text → Fields → RequestContext → Db → Result UpdatePlan
  unfolding patched
  update_branch false issue_id_value input context db = do
    version_if_given input
    issue ← require_visible_issue get_access issue_id_value context false db
    ok (read_only issue)
  update_branch true issue_id_value input context db = do
    expected ← expected_version input
    issue ← require_visible_issue get_access issue_id_value context true db
    assert_expected_version issue expected
    given ← patched issue input
    ok (change issue expected given)

  unfoldable pub update_plan : Text → Value → RequestContext → Db → Result UpdatePlan
  unfolding update_branch
  update_plan issue_id_value body_value context db = do
    input ← body body_value
    assert_core_patch_fields input
    update_branch (has_core_patch_mutation input) issue_id_value input context db

  unfoldable pub assign_plan : Text → Value → RequestContext → Db → Result (Issue × ℕ × Option Text)
  assign_plan issue_id_value body_value context db = do
    input ← body body_value
    expected ← expected_version input
    issue ← require_visible_issue get_access issue_id_value context true db
    assert_expected_version issue expected
    assignee_user_id ← optional_uuid (get "assigneeUserId" input) "assigneeUserId"
    member_access issue.project_id assignee_user_id context
    ok (issue, expected, assignee_user_id)

  unfoldable pub transition_plan :
      Text → Value → RequestContext → Db → Result (Issue × ℕ × ValidatedIssueTransition)
  transition_plan issue_id_value body_value context db = do
    input ← body body_value
    status ← enum_value (get "status" input) "status" issue_statuses
    issue ← require_visible_issue get_access issue_id_value context true db
    expected ← expected_version input
    assert_expected_version issue expected
    transition ← assert_transition issue.status status
    ok (issue, expected, transition)

  unfoldable pub comment_plan : Text → Value → RequestContext → Db → Result (Issue × Text)
  comment_plan issue_id_value body_value context db = do
    issue ← require_visible_issue get_access issue_id_value context true db
    input ← body body_value
    comment_body ← required_text (get "body" input) "body" 5000
    ok (issue, comment_body)
