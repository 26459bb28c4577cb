-- ===== src/Repository/Creation/Stored.antt =====
-- apps/issue-service-nest/src/infrastructure/postgres-issue.repository.ts: the row and the number that
-- `createIssue` stores.
use jira_microservices_lab.Common.{
  ℕ, suc, ◌≡◌, refl, ap, sym, ◌∙◌, subst, ◌⊎◌, inl, inr, none, Bool-cases, Text, codes, decimal,
  ◌++◌, text_eq, text_eq_sound,
}
use jira_microservices_lab.Domain.Errors.{ok}
use jira_microservices_lab.Domain.Issue.{Issue, todo}
use jira_microservices_lab.Repository.Db.{Db, Env}
use jira_microservices_lab.Repository.Table.{find_row, issue_ids, IsUnique}
use jira_microservices_lab.Repository.Statements.{bump}
use jira_microservices_lab.Repository.Sequences.{
  last_number, bump-last_number, last_number-bump, last_number-bump_other,
}
use jira_microservices_lab.Repository.Writes.{NewIssueData, new_row, create_issue}
use jira_microservices_lab.Repository.Changes.{Change}
use jira_microservices_lab.Repository.Creation.{create_issue-Change}

-- The row of a new issue: what the request gives, and what an issue starts with.
pub record IsNew (env : Env) (given : NewIssueData) (row : Issue) : Type 0 where
  pub drawn_id : row.id ≡ env.row_id
  pub in_project : row.project_id ≡ given.project_id
  pub key_made : row.key ≡ given.project_key ++ codes "-" ++ decimal row.number
  pub with_summary : row.summary ≡ given.summary
  pub with_description : row.description ≡ given.description
  pub with_type : row.type ≡ given.type
  pub with_priority : row.priority ≡ given.priority
  pub to_do : row.status ≡ todo
  pub reported : row.reporter_user_id ≡ given.reporter_user_id
  pub assigned : row.assignee_user_id ≡ given.assignee_user_id
  pub in_epic : row.epic_id ≡ given.epic_id
  pub in_sprint : row.sprint_id ≡ given.sprint_id
  pub first_version : row.version ≡ 1
  pub created : row.created_at ≡ env.row_now
  pub updated : row.updated_at ≡ env.row_now

new_row-IsNew :
    (env : Env) (given : NewIssueData) (number : ℕ) → IsNew env given (new_row env given number)
new_row-IsNew env given number = record {
  drawn_id = refl;
  in_project = refl;
  key_made = refl;
  with_summary = refl;
  with_description = refl;
  with_type = refl;
  with_priority = refl;
  to_do = refl;
  reported = refl;
  assigned = refl;
  in_epic = refl;
  in_sprint = refl;
  first_version = refl;
  created = refl;
  updated = refl;
}

-- If each issue stands once, a successful `createIssue` stored a new issue with what it was given,
-- the status TODO and version 1, under an identifier that no issue had. Its number is one above the
-- last number of its project, which is 0 before the first issue, and is in its key; it is the last
-- number of the project from then on, and that of no other project changes. No other issue changed,
-- and one event and one history row were added.
pub create_issue_ok :
    (env : Env) (given : NewIssueData) (db : Db) (row : Issue) (db' : Db)
    → IsUnique (issue_ids db.issues)
    → create_issue env given db ≡ (ok row, db')
    → IsNew env given row
      × (row.number ≡ suc (last_number given.project_id db.sequences))
      × (last_number given.project_id db'.sequences ≡ row.number)
      × ((other : Text)
          → (given.project_id ≡ other)
            ⊎ (last_number other db'.sequences ≡ last_number other db.sequences))
      × (find_row row.id db.issues ≡ none)
      × Change db db' row
create_issue_ok env given db row db' u h =
    let (same, fresh, stored, change) = create_issue-Change env given db row db' u h in
    let number : row.number ≡ (bump given.project_id db.sequences).0 =
      ap (λ (r : Issue). r.number) same in
    (
      subst (IsNew env given) (sym same)
          (new_row-IsNew env given (bump given.project_id db.sequences).0),
      number ∙ bump-last_number given.project_id db.sequences,
      ap (last_number given.project_id) stored
          ∙ (last_number-bump given.project_id db.sequences ∙ sym number),
      λ other. elim (Bool-cases (text_eq given.project_id other)) [
        | inl e ↦ inl (text_eq_sound given.project_id other e)
        | inr e ↦ inr (
            ap (last_number other) stored
            ∙ last_number-bump_other given.project_id other db.sequences e)
      ],
      fresh,
      change,
    )
