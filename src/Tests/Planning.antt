-- ===== src/Tests/Planning.antt =====
-- A sprint that two requests complete, and the epics and sprints of a project.
use jira_microservices_lab.Common.{◌≡◌, ◌≢◌, ◌⊎◌, All, IsIn, refl, codes, none, some, List, [], ◌∷◌}
use jira_microservices_lab.Domain.Errors.{ok, err, failure}
use jira_microservices_lab.Domain.Planning.{Sprint, blue, active, completed}
use jira_microservices_lab.Repository.Db.{Db}
use jira_microservices_lab.Repository.Planning.{NewEpicData, NewSprintData, finish, sprint_row}
use jira_microservices_lab.Repository.Planning.Invariant.{
  OneActive, PlanningRequest, new_epic, new_sprint, end_sprint, plan_run, run-OneActive,
}
use jira_microservices_lab.Application.Planning.{completion_plan, complete_sprint}
use jira_microservices_lab.Application.Planning.Completion.{
  Completes, IsAllowed, complete_sprint_outcome,
}
use jira_microservices_lab.Application.Planning.Completion.Twice.{complete_sprint_twice}
use jira_microservices_lab.Application.Access.{RequestContext}
use jira_microservices_lab.Tests.Running.{code}
use jira_microservices_lab.Tests.Data.{
  project_id, issue_id, first_env, second_env, empty_db, open_access, by_alice, bob,
}

abbrev new_sprint_data : NewSprintData
new_sprint_data = record {
  project_id = project_id;
  name = codes "Sprint 1";
  goal = none;
  start_date = some (codes "2024-02-01");
  end_date = some (codes "2024-02-29");
}

abbrev new_epic_data : NewEpicData
new_epic_data = record {
  project_id = project_id;
  name = codes "Epic";
  color = blue;
  start_date = none;
  target_date = none;
}

abbrev first_sprint : Sprint
first_sprint = sprint_row first_env new_sprint_data

-- The second sprint is refused while the first is active.
abbrev requests : List PlanningRequest
requests =
    new_epic second_env new_epic_data
    ∷ new_sprint first_env new_sprint_data
    ∷ new_sprint second_env new_sprint_data
    ∷ end_sprint first_env first_sprint
    ∷ new_sprint second_env new_sprint_data
    ∷ []

run-OneActive_example : OneActive (plan_run requests empty_db).sprints
run-OneActive_example = run-OneActive requests empty_db tt

abbrev one_sprint : Db
one_sprint = plan_run (new_sprint first_env new_sprint_data ∷ []) empty_db

abbrev finished : Sprint
finished = finish 23 first_sprint

abbrev no_sprint : Db
no_sprint = (complete_sprint open_access second_env issue_id by_alice one_sprint one_sprint).1

completion_allowed : completion_plan open_access issue_id by_alice one_sprint ≡ ok first_sprint
unfolding code
completion_allowed = refl

completed_now :
    complete_sprint open_access second_env issue_id by_alice one_sprint one_sprint
    ≡ (ok finished, no_sprint)
unfolding code
completed_now = refl

complete_sprint_outcome_example :
    IsAllowed open_access issue_id by_alice one_sprint first_sprint
    × (((s : Sprint) × (sprints : List Sprint) × IsIn s one_sprint.sprints
          × (s.id ≡ first_sprint.id)
          × (s.status ≡ active)
          × Completes first_sprint.id 23 one_sprint.sprints sprints
          × (complete_sprint open_access second_env issue_id by_alice one_sprint one_sprint ≡ (
            ok (record s { status = completed; completed_at = some 23 }),
            record one_sprint { sprints = sprints },
          )))
        ⊎ (All (λ s. (s.id ≢ first_sprint.id) ⊎ (s.status ≡ completed)) one_sprint.sprints
            × (complete_sprint open_access second_env issue_id by_alice one_sprint one_sprint
                ≡ (err failure, one_sprint))))
complete_sprint_outcome_example =
    complete_sprint_outcome open_access issue_id by_alice second_env one_sprint one_sprint
      first_sprint completion_allowed

-- Between the two completions another sprint is begun.
abbrev between : List PlanningRequest
between = new_sprint second_env new_sprint_data ∷ []

abbrev by_bob : RequestContext
by_bob = record { user_id = bob; correlation_id = codes "s" }

completion_allowed_bob : completion_plan open_access issue_id by_bob one_sprint ≡ ok first_sprint
unfolding code
completion_allowed_bob = refl

complete_sprint_twice_example :
    complete_sprint open_access first_env issue_id by_bob one_sprint (plan_run between no_sprint)
    ≡ (err failure, plan_run between no_sprint)
complete_sprint_twice_example =
    complete_sprint_twice open_access open_access second_env first_env issue_id issue_id by_alice
      by_bob one_sprint one_sprint one_sprint first_sprint first_sprint finished no_sprint between
      completion_allowed completion_allowed_bob refl completed_now
