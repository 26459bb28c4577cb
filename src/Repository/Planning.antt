-- ===== src/Repository/Planning.antt =====
-- apps/issue-service-nest/src/infrastructure/postgres-planning.repository.ts: the operations on the
-- tables of epics and sprints, over apps/issue-service-nest/migrations/003_planning.sql. A date is
-- the text that the row types of the source declare.
pub mod Invariant
use jira_microservices_lab.Common.{
  ℕ, Text, take, codes, text_eq, text_lt, contains, Option, Bool, true, false, ◌&&◌, ◌||◌, not,
  none, some, List, [], ◌∷◌, ◌++◌, map, keep, any_of, ltb, first, ◌==◌, if◌then◌else◌, sort_rows,
}
use jira_microservices_lab.Domain.Errors.{Result, ok, err, failure}
use jira_microservices_lab.Domain.Planning.{
  Epic, Sprint, EpicColor, SprintStatus, active, completed,
}
use jira_microservices_lab.Repository.Db.{Db, Env, Tx, pure, throw, ◌>>=◌, ◌>>◌, check, transaction}

pub record NewEpicData : Type 0 where
  pub project_id : Text
  pub name : Text
  pub color : EpicColor
  pub start_date : Option Text
  pub target_date : Option Text

pub record NewSprintData : Type 0 where
  pub project_id : Text
  pub name : Text
  pub goal : Option Text
  pub start_date : Option Text
  pub end_date : Option Text

-- CHECK (start_date IS NULL OR end_date IS NULL OR start_date <= end_date)
abbrev pub dates_in_order : Option Text → Option Text → Bool
dates_in_order none end = true
dates_in_order (some s) none = true
dates_in_order (some s) (some t) = not (text_lt t s)

-- A DATE of PostgreSQL has no year 0000.
abbrev pub storable : Option Text → Bool
storable none = true
storable (some t) = not (text_eq (take 4 t) (codes "0000"))

unfoldable pub epic_row : Env → NewEpicData → Epic
epic_row env given = record {
  id = env.row_id;
  project_id = given.project_id;
  name = given.name;
  color = given.color;
  start_date = given.start_date;
  target_date = given.target_date;
  created_at = env.row_now;
  updated_at = env.row_now;
}

unfoldable pub create_epic : Env → NewEpicData → Db → Result Epic × Db
unfolding transaction epic_row
create_epic env given = transaction (λ db.
    (do
      check (not (contains env.row_id (map (λ e. e.id) db.epics)))
      check (storable given.start_date && storable given.target_date)
      check (dates_in_order given.start_date given.target_date)
      λ db'. ok (epic_row env given, record db' { epics = db'.epics ++ epic_row env given ∷ [] }))
      db)

-- `start_date NULLS LAST, created_at`
abbrev epic_before : Epic → Epic → Bool
epic_before a b = elim a.start_date [
  | none ↦ elim b.start_date [ none ↦ ltb a.created_at b.created_at | some t ↦ false ]
  | some s ↦ elim b.start_date [
    | none ↦ true
    | some t ↦ if text_eq s t then ltb a.created_at b.created_at else text_lt s t
  ]
]

unfoldable pub list_epics : Text → Db → List Epic
unfolding sort_rows
list_epics project_id db =
    sort_rows epic_before (keep (λ e. text_eq e.project_id project_id) db.epics)

unfoldable pub find_epic : Text → List Epic → Option Epic
find_epic id [] = none
find_epic id (e ∷ epics) = if text_eq e.id id then some e else find_epic id epics

abbrev pub set_epic : ℕ → NewEpicData → Epic → Epic
set_epic now given e = record e {
  name = given.name;
  color = given.color;
  start_date = given.start_date;
  target_date = given.target_date;
  updated_at = now;
}

-- The epics after the UPDATE of the one with an identifier.
unfoldable pub replace_epic : Text → (Epic → Epic) → List Epic → List Epic
replace_epic id f [] = []
replace_epic id f (e ∷ epics) = (if text_eq e.id id then f e else e) ∷ replace_epic id f epics

-- The UPDATE, given the row that it finds. Without one, `toEpic` throws a TypeError.
abbrev pub write_epic : Env → NewEpicData → Option Epic → Tx Epic
write_epic env given none = throw failure
write_epic env given (some e) = do
  check (storable given.start_date && storable given.target_date)
  check (dates_in_order given.start_date given.target_date)
  λ db. ok (
    set_epic env.db_now given e,
    record db { epics = replace_epic e.id (set_epic env.db_now given) db.epics },
  )

-- The project of `given` is not used.
unfoldable pub update_epic : Env → Epic → NewEpicData → Db → Result Epic × Db
unfolding transaction find_epic replace_epic
update_epic env epic given =
    transaction (λ db. write_epic env given (find_epic epic.id db.epics) db)

abbrev pub is_active : SprintStatus → Bool
is_active active = true
is_active completed = false

-- The unique index ux_sprints_one_active_project: the active sprints of a project.
abbrev pub is_active_of : Text → Sprint → Bool
is_active_of project_id s = text_eq s.project_id project_id && is_active s.status

unfoldable pub sprint_row : Env → NewSprintData → Sprint
sprint_row env given = record {
  id = env.row_id;
  project_id = given.project_id;
  name = given.name;
  goal = given.goal;
  start_date = given.start_date;
  end_date = given.end_date;
  status = active;
  created_at = env.row_now;
  completed_at = none;
}

unfoldable pub create_sprint : Env → NewSprintData → Db → Result Sprint × Db
unfolding transaction sprint_row
create_sprint env given = transaction (λ db.
    (do
      check (not (contains env.row_id (map (λ s. s.id) db.sprints)))
      check (storable given.start_date && storable given.end_date)
      check (dates_in_order given.start_date given.end_date)
      check (not (any_of (is_active_of given.project_id) db.sprints))
      λ db'.
          ok (
            sprint_row env given,
            record db' { sprints = db'.sprints ++ sprint_row env given ∷ [] },
          ))
      db)

-- `CASE WHEN status = 'ACTIVE' THEN 0 ELSE 1 END, created_at DESC`
abbrev sprint_before : Sprint → Sprint → Bool
sprint_before a b = elim a.status [
  | active ↦ elim b.status [ active ↦ ltb b.created_at a.created_at | completed ↦ true ]
  | completed ↦ elim b.status [ active ↦ false | completed ↦ ltb b.created_at a.created_at ]
]

unfoldable pub list_sprints : Text → Db → List Sprint
unfolding sort_rows
list_sprints project_id db =
    sort_rows sprint_before (keep (λ s. text_eq s.project_id project_id) db.sprints)

unfoldable pub find_sprint : Text → List Sprint → Option Sprint
find_sprint id [] = none
find_sprint id (s ∷ sprints) = if text_eq s.id id then some s else find_sprint id sprints

abbrev pub finish : ℕ → Sprint → Sprint
finish now s = record s { status = completed; completed_at = some now }

-- WHERE id = $1 AND status = 'ACTIVE'
abbrev pub is_unfinished : Text → Sprint → Bool
is_unfinished id s = text_eq s.id id && is_active s.status

unfoldable pub finish_where : Text → ℕ → List Sprint → List Sprint
finish_where id now [] = []
finish_where id now (s ∷ sprints) =
    (if is_unfinished id s then finish now s else s) ∷ finish_where id now sprints

-- Without a row to return, `toSprint` throws a TypeError.
unfoldable pub complete_sprint : Env → Sprint → Db → Result Sprint × Db
unfolding transaction finish_where
complete_sprint env sprint = transaction (λ db.
    elim (first (keep (is_unfinished sprint.id) db.sprints)) [
      | none ↦ err failure
      | some s ↦ ok (
        finish env.db_now s,
        record db { sprints = finish_where sprint.id env.db_now db.sprints },
      )
    ])
