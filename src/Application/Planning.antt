-- ===== src/Application/Planning.antt =====
-- apps/issue-service-nest/src/application/planning-application.service.ts: the use cases of epics
-- and sprints. A handler reads in one state of the database, `read`, and writes in a later one,
-- `write`.
pub mod Completion
use jira_microservices_lab.Common.{
  Text, codes, Option, Bool, true, false, none, some, List, not, if◌then◌else◌,
}
use jira_microservices_lab.Json.{
  Value, Fields, null, undefined, bool, num, str, arr, obj, end, get, is_undefined,
}
use jira_microservices_lab.Domain.Errors.{
  Error, Result, ok, err, ◌>>=◌, ◌>>◌, domain_error, require, some_or,
}
use jira_microservices_lab.Domain.Values.{uuid, enum_value, optional_text}
use jira_microservices_lab.Domain.Planning.{
  Epic, Sprint, EpicColor, optional_date, plan_dates, epic_name, epic_colors, epic_color_name,
}
use jira_microservices_lab.Repository.Db.{Db, Env}
use jira_microservices_lab.Repository.Planning.{
  NewEpicData, NewSprintData, find_epic, find_sprint, is_active,
}
use jira_microservices_lab.Repository.Planning
use jira_microservices_lab.Application.Access.{
  ProjectStatus, ProjectAccess, ProjectAccessContext, RequestContext, active, archived,
}
use jira_microservices_lab.Application.Input.{body}
use jira_microservices_lab.Application.Handlers.{carry_out}

unfoldable pub epic_not_found : Error
unfolding domain_error
epic_not_found = domain_error 404 "EPIC_NOT_FOUND" "Epic was not found" end

unfoldable pub sprint_not_found : Error
unfolding domain_error
sprint_not_found = domain_error 404 "SPRINT_NOT_FOUND" "Sprint was not found" end

unfoldable pub sprint_already_completed : Error
unfolding domain_error
sprint_already_completed =
    domain_error 409 "SPRINT_ALREADY_COMPLETED" "Sprint has already been completed" end

unfoldable pub planning_archived : Error
unfolding domain_error
planning_archived =
    domain_error 409 "PROJECT_ARCHIVED" "Archived projects reject planning writes" end

abbrev pub writable_planning : ProjectStatus → Result (Unit {0})
writable_planning active = ok tt
writable_planning archived = err planning_archived

-- `input.color ?? 'BLUE'`
abbrev color_or_blue : Value → Value
color_or_blue undefined = str (codes "BLUE")
color_or_blue null = str (codes "BLUE")
color_or_blue (bool b) = bool b
color_or_blue (num n) = num n
color_or_blue (str t) = str t
color_or_blue (arr vs) = arr vs
color_or_blue (obj fs) = obj fs

abbrev given_or {ℓ} : {A : Type ℓ} → Value → A → Result A → Result A
given_or value old validated = if is_undefined value then ok old else validated

module _ (get_access : ProjectAccess) where
  unfoldable pub require_writable_plan : Text → RequestContext → Result (Unit {0})
  require_writable_plan project_id context = do
    access ← get_access project_id context.user_id context.correlation_id
    writable_planning access.project_status

  -- `requireVisibleEpic(epicIdValue, context, true)`, its only use.
  unfoldable pub require_visible_epic : Text → RequestContext → Db → Result Epic
  unfolding require_writable_plan epic_not_found
  require_visible_epic epic_id_value context db = do
    epic_id ← uuid (str epic_id_value) "epicId"
    epic ← some_or (find_epic epic_id db.epics) epic_not_found
    require_writable_plan epic.project_id context
    ok epic

  unfoldable pub list_epics : Text → RequestContext → Db → Result (List Epic)
  list_epics project_id_value context db = do
    project_id ← uuid (str project_id_value) "projectId"
    access ← get_access project_id context.user_id context.correlation_id
    ok (Planning.list_epics project_id db)

  unfoldable pub epic_plan : Text → Value → RequestContext → Result NewEpicData
  epic_plan project_id_value body_value context = do
    project_id ← uuid (str project_id_value) "projectId"
    require_writable_plan project_id context
    input ← body body_value
    start_date ← optional_date (get "startDate" input) "startDate"
    target_date ← optional_date (get "targetDate" input) "targetDate"
    plan_dates start_date target_date
    name ← epic_name (get "name" input)
    color ← enum_value (color_or_blue (get "color" input)) "color" epic_colors
    ok (record {
      project_id = project_id;
      name = name;
      color = color;
      start_date = start_date;
      target_date = target_date;
    })

  unfoldable pub create_epic : Env → Text → Value → RequestContext → Db → Result Epic × Db
  unfolding epic_plan
  create_epic env project_id_value body_value context write =
      carry_out (epic_plan project_id_value body_value context) (Planning.create_epic env) write

  unfoldable pub epic_change_plan : Text → Value → RequestContext → Db → Result (Epic × NewEpicData)
  unfolding require_visible_epic
  epic_change_plan epic_id_value body_value context db = do
    epic ← require_visible_epic epic_id_value context db
    input ← body body_value
    start_date ←
        given_or (get "startDate" input) epic.start_date
          (optional_date (get "startDate" input) "startDate")
    target_date ←
        given_or (get "targetDate" input) epic.target_date
          (optional_date (get "targetDate" input) "targetDate")
    plan_dates start_date target_date
    name ← given_or (get "name" input) epic.name (epic_name (get "name" input))
    color ←
        given_or (get "color" input) epic.color (enum_value (get "color" input) "color" epic_colors)
    ok (
      epic,
      record {
        project_id = epic.project_id;
        name = name;
        color = color;
        start_date = start_date;
        target_date = target_date;
      },
    )

  unfoldable pub update_epic : Env → Text → Value → RequestContext → Db → Db → Result Epic × Db
  unfolding epic_change_plan
  update_epic env epic_id_value body_value context read write =
      carry_out (epic_change_plan epic_id_value body_value context read)
        (λ plan. Planning.update_epic env plan.0 plan.1) write

  unfoldable pub list_sprints : Text → RequestContext → Db → Result (List Sprint)
  list_sprints project_id_value context db = do
    project_id ← uuid (str project_id_value) "projectId"
    access ← get_access project_id context.user_id context.correlation_id
    ok (Planning.list_sprints project_id db)

  unfoldable pub sprint_plan : Text → Value → RequestContext → Result NewSprintData
  unfolding require_writable_plan
  sprint_plan project_id_value body_value context = do
    project_id ← uuid (str project_id_value) "projectId"
    require_writable_plan project_id context
    input ← body body_value
    start_date ← optional_date (get "startDate" input) "startDate"
    end_date ← optional_date (get "endDate" input) "endDate"
    plan_dates start_date end_date
    name ← epic_name (get "name" input)
    goal ← optional_text (get "goal" input) "goal" 500
    ok (record {
      project_id = project_id;
      name = name;
      goal = goal;
      start_date = start_date;
      end_date = end_date;
    })

  unfoldable pub create_sprint : Env → Text → Value → RequestContext → Db → Result Sprint × Db
  unfolding sprint_plan
  create_sprint env project_id_value body_value context write =
      carry_out (sprint_plan project_id_value body_value context) (Planning.create_sprint env) write

  unfoldable pub completion_plan : Text → RequestContext → Db → Result Sprint
  unfolding require_writable_plan sprint_not_found sprint_already_completed
  completion_plan sprint_id_value context db = do
    sprint_id ← uuid (str sprint_id_value) "sprintId"
    sprint ← some_or (find_sprint sprint_id db.sprints) sprint_not_found
    require_writable_plan sprint.project_id context
    require (is_active sprint.status) sprint_already_completed
    ok sprint

  unfoldable pub complete_sprint : Env → Text → RequestContext → Db → Db → Result Sprint × Db
  unfolding completion_plan
  complete_sprint env sprint_id_value context read write =
      carry_out (completion_plan sprint_id_value context read) (Planning.complete_sprint env) write
