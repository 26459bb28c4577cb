-- ===== src/Repository/Planning/Invariant.antt =====
-- apps/issue-service-nest/src/infrastructure/postgres-planning.repository.ts: the active sprints
-- of a project over histories of operations.
use jira_microservices_lab.Common.{
  ℕ, ◌≡◌, ◌⊎◌, inl, inr, refl, ap, sym, subst, Text, text_eq, text_eq_iff, true, false, List, [],
  ◌∷◌, ◌++◌, any_of, arith,
}
use jira_microservices_lab.Domain.Errors.{ok}
use jira_microservices_lab.Domain.Planning.{Epic, Sprint}
use jira_microservices_lab.Repository.Db.{Db, Env}
use jira_microservices_lab.Repository.Planning.{
  NewEpicData, NewSprintData, create_epic, update_epic, create_sprint, complete_sprint, is_active,
  is_active_of, sprint_row, finish_where,
}

-- No active sprint is followed by another of its project.
abbrev pub OneActive : List Sprint → Type 0
OneActive [] = Unit
OneActive (s ∷ sprints) =
    (is_active s.status ≡ true → any_of (is_active_of s.project_id) sprints ≡ false)
    × OneActive sprints

any_of-snoc :
    (project_id : Text) (sprints : List Sprint) (s : Sprint)
    → any_of (is_active_of project_id) sprints ≡ false
    → text_eq s.project_id project_id ≡ false
    → any_of (is_active_of project_id) (sprints ++ s ∷ []) ≡ false
any_of-snoc project_id [] s h e = ground arith
any_of-snoc project_id (x ∷ sprints) s h e = ground (arith, any_of-snoc project_id sprints s)

any_of_same :
    (a b : Text) (sprints : List Sprint)
    → text_eq a b ≡ true
    → any_of (is_active_of a) sprints ≡ any_of (is_active_of b) sprints
any_of_same a b sprints e = ap (λ t. any_of (is_active_of t) sprints) ((text_eq_iff a b).0 e)

OneActive-snoc :
    (sprints : List Sprint) (s : Sprint)
    → OneActive sprints
    → any_of (is_active_of s.project_id) sprints ≡ false
    → OneActive (sprints ++ s ∷ [])
OneActive-snoc [] s u h = (λ a. refl, tt)
OneActive-snoc (x ∷ sprints) s u h = (
  λ a. any_of-snoc x.project_id sprints s (u.0 a) (
      ground
        (arith, a, text_eq_iff x.project_id s.project_id, text_eq_iff s.project_id x.project_id)),
  OneActive-snoc sprints s u.1 (ground arith),
)

any_of-finish_where :
    (project_id id : Text) (now : ℕ) (sprints : List Sprint)
    → any_of (is_active_of project_id) sprints ≡ false
    → any_of (is_active_of project_id) (finish_where id now sprints) ≡ false
unfolding finish_where
any_of-finish_where project_id id now [] h = refl
any_of-finish_where project_id id now (s ∷ sprints) h =
    ground (arith, any_of-finish_where project_id id now sprints)

OneActive-finish_where :
    (id : Text) (now : ℕ) (sprints : List Sprint)
    → OneActive sprints
    → OneActive (finish_where id now sprints)
unfolding finish_where
OneActive-finish_where id now [] u = tt
OneActive-finish_where id now (s ∷ sprints) u = (
  λ a. ground (arith, any_of-finish_where s.project_id id now sprints),
  OneActive-finish_where id now sprints u.1,
)

-- A successful `createSprint` stored one new active sprint, and its project had none.
pub create_sprint_ok :
    (env : Env) (given : NewSprintData) (db : Db) (row : Sprint) (db' : Db)
    → create_sprint env given db ≡ (ok row, db')
    → (row ≡ sprint_row env given)
      × (any_of (is_active_of row.project_id) db.sprints ≡ false)
      × (db' ≡ record db { sprints = db.sprints ++ row ∷ [] })
unfolding create_sprint
create_sprint_ok env given db row db' h = ground arith

-- A call of the planning repository that writes.
pub data PlanningRequest : Type 0 where
  new_epic : Env → NewEpicData → PlanningRequest
  change_epic : Env → Epic → NewEpicData → PlanningRequest
  new_sprint : Env → NewSprintData → PlanningRequest
  end_sprint : Env → Sprint → PlanningRequest

unfoldable pub plan_step : PlanningRequest → Db → Db
plan_step (new_epic env given) db = (create_epic env given db).1
plan_step (change_epic env epic given) db = (update_epic env epic given db).1
plan_step (new_sprint env given) db = (create_sprint env given db).1
plan_step (end_sprint env sprint) db = (complete_sprint env sprint db).1

unfoldable pub plan_run : List PlanningRequest → Db → Db
unfolding plan_step
plan_run [] db = db
plan_run (r ∷ rs) db = plan_run rs (plan_step r db)

pub create_epic-sprints :
    (env : Env) (given : NewEpicData) (db : Db) → (create_epic env given db).1.sprints ≡ db.sprints
unfolding create_epic
create_epic-sprints env given db = ground arith

pub update_epic-sprints :
    (env : Env) (epic : Epic) (given : NewEpicData) (db : Db)
    → (update_epic env epic given db).1.sprints ≡ db.sprints
unfolding update_epic
update_epic-sprints env epic given db = ground arith

pub complete_sprint-sprints :
    (env : Env) (sprint : Sprint) (db : Db)
    → ((complete_sprint env sprint db).1.sprints ≡ finish_where sprint.id env.db_now db.sprints)
      ⊎ ((complete_sprint env sprint db).1.sprints ≡ db.sprints)
unfolding complete_sprint
complete_sprint-sprints env sprint db = ground arith

create_sprint-OneActive :
    (env : Env) (given : NewSprintData) (db : Db)
    → OneActive db.sprints
    → OneActive (create_sprint env given db).1.sprints
unfolding create_sprint
create_sprint-OneActive env given db u =
    ground (arith, OneActive-snoc db.sprints (sprint_row env given) u)

step-OneActive :
    (r : PlanningRequest) (db : Db) → OneActive db.sprints → OneActive (plan_step r db).sprints
unfolding plan_step
step-OneActive (new_epic env given) db u =
    subst OneActive (sym (create_epic-sprints env given db)) u
step-OneActive (change_epic env epic given) db u =
    subst OneActive (sym (update_epic-sprints env epic given db)) u
step-OneActive (new_sprint env given) db u = create_sprint-OneActive env given db u
step-OneActive (end_sprint env sprint) db u = elim (complete_sprint-sprints env sprint db) [
  | inl e ↦ subst OneActive (sym e) (OneActive-finish_where sprint.id env.db_now db.sprints u)
  | inr e ↦ subst OneActive (sym e) u
]

-- If a project has at most one active sprint, this is so after every history of operations on
-- epics and sprints.
pub run-OneActive :
    (rs : List PlanningRequest) (db : Db)
    → OneActive db.sprints
    → OneActive (plan_run rs db).sprints
unfolding plan_run
run-OneActive [] db u = u
run-OneActive (r ∷ rs) db u = run-OneActive rs (plan_step r db) (step-OneActive r db u)
