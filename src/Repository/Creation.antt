-- ===== src/Repository/Creation.antt =====
-- apps/issue-service-nest/src/infrastructure/postgres-issue.repository.ts: what `createIssue`
-- has done when it succeeds.
pub mod Stored
use jira_microservices_lab.Common.{
  ℕ, ◌≡◌, refl, Text, false, none, [], ◌∷◌, ◌++◌, arith, contains, ap, sym, ◌∙◌, subst, any_of, suc,
  codes, decimal, ◌⊎◌, inl, inr, Bool-cases, text_eq, text_eq_sound,
}
use jira_microservices_lab.Json.{null}
use jira_microservices_lab.Domain.Errors.{ok}
use jira_microservices_lab.Domain.Issue.{Issue, todo}
use jira_microservices_lab.Repository.Db.{Db, Env, pure, ◌>>◌}
use jira_microservices_lab.Repository.Table.{
  find_row, find_row-append, find_row_of_fresh, issue_ids, IsUnique, IsUnique-snoc,
}
use jira_microservices_lab.Repository.Statements.{
  bump, next_number, insert_issue, insert_history, insert_event, history_row, event_row,
  same_number, same_key,
}
use jira_microservices_lab.Repository.Sequences.{
  last_number, bump-last_number, last_number-bump, last_number-bump_other,
}
use jira_microservices_lab.Repository.Payloads.{created_value, created_payload}
use jira_microservices_lab.Repository.Writes.{NewIssueData, new_row, create_work, create_issue}
use jira_microservices_lab.Repository.Changes.{Change, and_then-eq-ok, record_ok}
use jira_microservices_lab.Repository.Operations.{transaction_ok}

next_number_ok :
    (project : Text) (db : Db) (number : ℕ) (db' : Db)
    → next_number project db ≡ ok (number, db')
    → (number ≡ (bump project db.sequences).0)
      × (db' ≡ record db { sequences = (bump project db.sequences).1 })
unfolding next_number
next_number_ok project db number db' h = ground arith

-- An INSERT that succeeds has met the table's constraints.
pub record Inserted (db db' : Db) (row : Issue) : Type 0 where
  pub fresh : contains row.id (issue_ids db.issues) ≡ false
  pub number_free : any_of (same_number row) db.issues ≡ false
  pub key_free : any_of (same_key row) db.issues ≡ false
  pub stored : db' ≡ record db { issues = db.issues ++ row ∷ [] }

insert_issue_ok :
    (env : Env) (row : Issue) (db : Db) (row' : Issue) (db' : Db)
    → insert_issue env row db ≡ ok (row', db')
    → (row' ≡ row) × Inserted db db' row
unfolding insert_issue
insert_issue_ok env row db row' db' h = (
  ground arith,
  record {
    fresh = ground arith;
    number_free = ground arith;
    key_free = ground arith;
    stored = ground arith;
  },
)

Inserted-Change :
    (env : Env) (given : NewIssueData) (number : ℕ) (db mid mid' db' : Db)
    → IsUnique (issue_ids db.issues)
    → mid.issues ≡ db.issues
    → mid.history ≡ db.history
    → mid.outbox ≡ db.outbox
    → Inserted mid mid' (new_row env given number)
    → let row = new_row env given number in
      let actor = given.reporter_user_id in
      db' ≡ record mid' {
        history = mid'.history ++ history_row env row actor "CREATED" null (created_value row) ∷ [];
        outbox =
            mid'.outbox ++ event_row env row actor "issue.created" (created_payload row actor) ∷ [];
      }
      → Change db db' row
unfolding history_row event_row
Inserted-Change env given number db mid mid' db' u ei eh eo ins e = record {
  rows = λ j. ap (find_row j) issues ∙ find_row-append j db.issues row fresh;
  counted = ground (arith, find_row_of_fresh row.id db.issues fresh);
  unique = subst (λ rs. IsUnique (issue_ids rs)) (sym issues) (IsUnique-snoc db.issues row u fresh);
  event = event_row env row actor "issue.created" (created_payload row actor);
  event_added = added_event;
  event_of = refl;
  event_version = refl;
  event_pending = refl;
  event_untried = refl;
  change = history_row env row actor "CREATED" null (created_value row);
  change_added = added_change;
  change_of = refl;
}
  where
    row : Issue
    row = new_row env given number

    actor : Text
    actor = given.reporter_user_id

    issues : db'.issues ≡ db.issues ++ row ∷ []
    issues = ap (λ d. d.issues) e ∙ ap (λ d. d.issues) ins.stored ∙ ap (λ rs. rs ++ row ∷ []) ei

    fresh : contains row.id (issue_ids db.issues) ≡ false
    fresh = subst (λ rs. contains row.id (issue_ids rs) ≡ false) ei ins.fresh

    added_event :
        db'.outbox
        ≡ db.outbox ++ event_row env row actor "issue.created" (created_payload row actor) ∷ []
    added_event =
        ap (λ d. d.outbox) e
        ∙ ap (λ o. o ++ event_row env row actor "issue.created" (created_payload row actor) ∷ [])
            (ap (λ d. d.outbox) ins.stored ∙ eo)

    added_change :
        db'.history
        ≡ db.history ++ history_row env row actor "CREATED" null (created_value row) ∷ []
    added_change =
        ap (λ d. d.history) e
        ∙ ap (λ o. o ++ history_row env row actor "CREATED" null (created_value row) ∷ [])
            (ap (λ d. d.history) ins.stored ∙ eh)

created_ok :
    (env : Env) (given : NewIssueData) (db mid mid' : Db) (number : ℕ) (row' row : Issue) (db' : Db)
    → IsUnique (issue_ids db.issues)
    → (number ≡ (bump given.project_id db.sequences).0)
      × (mid ≡ record db { sequences = (bump given.project_id db.sequences).1 })
    → (row' ≡ new_row env given number) × Inserted mid mid' (new_row env given number)
    → (insert_history env row' given.reporter_user_id "CREATED" null (created_value row')
          >> (insert_event env row' given.reporter_user_id "issue.created"
                (created_payload row' given.reporter_user_id)
              >> pure row'))
        mid'
      ≡ ok (row, db')
    → (row ≡ new_row env given (bump given.project_id db.sequences).0)
      × (find_row row.id db.issues ≡ none)
      × (db'.sequences ≡ (bump given.project_id db.sequences).1)
      × Change db db' row
created_ok env given db mid mid' number row' row db' u (en, em) (er, ins) k = (
  same ∙ ap (new_row env given) en,
  ap (λ r. find_row r.id db.issues) same
      ∙ find_row_of_fresh env.row_id db.issues (
          subst (λ rs. contains env.row_id (issue_ids rs) ≡ false) (ap (λ d. d.issues) em)
            ins.fresh),
  ap (λ d. d.sequences) after ∙ ap (λ d. d.sequences) ins.stored ∙ ap (λ d. d.sequences) em,
  subst (λ r. Change db db' r) (sym same)
      (Inserted-Change env given number db mid mid' db' u (ap (λ d. d.issues) em)
        (ap (λ d. d.history) em) (ap (λ d. d.outbox) em) ins after),
)
  where
    new : Issue
    new = new_row env given number

    actor : Text
    actor = given.reporter_user_id

    recorded :
        (row ≡ new)
        × (db' ≡ record mid' {
          history =
              mid'.history ++ history_row env new actor "CREATED" null (created_value new) ∷ [];
          outbox =
              mid'.outbox
              ++ event_row env new actor "issue.created" (created_payload new actor) ∷ [];
        })
    recorded =
        record_ok env new actor "CREATED" "issue.created" null (created_value new)
          (created_payload new actor) new mid' row db'
          (subst
            (λ r.
              (insert_history env r actor "CREATED" null (created_value r)
                  >> (insert_event env r actor "issue.created" (created_payload r actor) >> pure r))
                mid'
              ≡ ok (row, db'))
            er k)

    same : row ≡ new
    same = recorded.0

    after : db' ≡ record mid' {
      history = mid'.history ++ history_row env new actor "CREATED" null (created_value new) ∷ [];
      outbox =
          mid'.outbox ++ event_row env new actor "issue.created" (created_payload new actor) ∷ [];
    }
    after = recorded.1

-- What `createIssue` has stored, in the terms of its statements.
pub create_issue-Change :
    (env : Env) (given : NewIssueData) (db : Db) (row : Issue) (db' : Db)
    → IsUnique (issue_ids db.issues)
    → create_issue env given db ≡ (ok row, db')
    → (row ≡ new_row env given (bump given.project_id db.sequences).0)
      × (find_row row.id db.issues ≡ none)
      × (db'.sequences ≡ (bump given.project_id db.sequences).1)
      × Change db db' row
unfolding create_issue create_work
create_issue-Change env given db row db' u h =
    let work = transaction_ok (create_work env given) db row db' h in
    let (number, mid, e, k) = and_then-eq-ok _ _ row db' work in
    let (row', mid', e', k') = and_then-eq-ok _ _ row db' k in
    created_ok env given db mid mid' number row' row db' u
      (next_number_ok given.project_id db number mid e)
      (insert_issue_ok env (new_row env given number) mid row' mid' e') k'
