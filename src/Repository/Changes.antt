-- ===== src/Repository/Changes.antt =====
-- apps/issue-service-nest/src/infrastructure/postgres-issue.repository.ts: the change that a
-- successful write makes to the tables.
use jira_microservices_lab.Common.{
  ℕ, suc, ◌≡◌, refl, Text, text_eq, none, some, [], ◌∷◌, ◌++◌, if◌then◌else◌, arith,
}
use Prim.Native.String.{String}
use jira_microservices_lab.Json.{Value}
use jira_microservices_lab.Domain.Errors.{Result, ok, err}
use jira_microservices_lab.Domain.Issue.{Issue, IssueHistory}
use jira_microservices_lab.Repository.Db.{Db, OutboxRow, Env, Tx, pure, and_then, ◌>>◌}
use jira_microservices_lab.Repository.Table.{
  find_row, issue_ids, IsUnique, Outcome, missed, hit, update_where-Outcome, update_where-ids,
}
use jira_microservices_lab.Repository.Statements.{
  insert_history, history_row, insert_event, event_row, next_version, update_with_version,
}

-- The version of an issue: 0 while it does not exist.
abbrev pub version_at : Text → Db → ℕ
version_at id db = elim (find_row id db.issues) [ none ↦ 0 | some r ↦ r.version ]

-- From `db` to `db'` the issue that is now `row` was created or changed, and nothing else was.
pub record Change (db db' : Db) (row : Issue) : Type 0 where
  pub rows :
      (j : Text)
      → find_row j db'.issues ≡ (if text_eq row.id j then some row else find_row j db.issues)
  pub counted : row.version ≡ suc (version_at row.id db)
  pub unique : IsUnique (issue_ids db'.issues)
  pub event : OutboxRow
  pub event_added : db'.outbox ≡ db.outbox ++ event ∷ []
  pub event_of : event.aggregate_id ≡ row.id
  pub event_version : event.aggregate_version ≡ row.version
  pub event_pending : event.published_at ≡ none
  pub event_untried : event.publish_attempts ≡ 0
  pub change : IssueHistory
  pub change_added : db'.history ≡ db.history ++ change ∷ []
  pub change_of : change.issue_id ≡ row.id

-- A successful bind succeeded in both parts.
pub and_then-eq-ok :
    {A B : Type 0} (r : Result (A × Db)) (f : A → Tx B) (b : B) (db' : Db)
    → and_then r f ≡ ok (b, db')
    → (a : A) × (mid : Db) × (r ≡ ok (a, mid)) × (f a mid ≡ ok (b, db'))
and_then-eq-ok (ok (a, mid)) f b db' h = (a, mid, refl, h)
and_then-eq-ok (err e) f b db' h = cc

-- The two inserts that end each operation.
pub record_ok :
    {A : Type 0} (env : Env) (issue : Issue) (actor : Text) (action event_type : String)
    (from to payload : Value) (result : A) (db : Db) (a : A) (db' : Db)
    → (insert_history env issue actor action from to
          >> (insert_event env issue actor event_type payload >> pure result))
        db
      ≡ ok (a, db')
    → (a ≡ result)
      × (db' ≡ record db {
        history = db.history ++ history_row env issue actor action from to ∷ [];
        outbox = db.outbox ++ event_row env issue actor event_type payload ∷ [];
      })
unfolding insert_history insert_event
record_ok env issue actor action event_type from to payload result db a db' h = ground arith

-- What an UPDATE that found its row has done.
pub record Updated (db db' : Db) (id : Text) (expected : ℕ) (f : Issue → Issue) (row : Issue)
    : Type 0 where
  pub before : Issue
  pub found : find_row id db.issues ≡ some before
  pub expected_version : before.version ≡ expected
  pub returned : row ≡ f before
  pub updated_rows :
      (j : Text) → find_row j db'.issues ≡ (if text_eq id j then some row else find_row j db.issues)
  pub same_ids : issue_ids db'.issues ≡ issue_ids db.issues
  pub rest : db' ≡ record db { issues = db'.issues }

next_version-id :
    (now : ℕ) (setters : Issue → Issue) (r : Issue)
    → (setters r).id ≡ r.id
    → (next_version now setters r).id ≡ r.id
unfolding next_version
next_version-id now setters r h = h

pub update_with_version_ok :
    (env : Env) (issue : Issue) (expected : ℕ) (setters : Issue → Issue)
    (same_id : (r : Issue) → (setters r).id ≡ r.id) (db : Db) (row : Issue) (db' : Db)
    → IsUnique (issue_ids db.issues)
    → update_with_version env issue expected setters db ≡ ok (row, db')
    → Updated db db' issue.id expected (next_version env.db_now setters) row
unfolding update_with_version
update_with_version_ok env issue expected setters same_id db row db' u h =
    from_outcome (update_where-Outcome issue.id expected f keeps db.issues u)
  where
    f : Issue → Issue
    f = next_version env.db_now setters

    keeps : (r : Issue) → (f r).id ≡ r.id
    keeps r = next_version-id env.db_now setters r (same_id r)

    from_outcome :
        Outcome issue.id expected f keeps db.issues → Updated db db' issue.id expected f row
    from_outcome (missed e none_fits) = absurd (ground arith)
    from_outcome (hit r found same one now) = record {
      before = r;
      found = found;
      expected_version = same;
      returned = ground arith;
      updated_rows = λ j. ground (arith, now j);
      same_ids = ground (arith, update_where-ids issue.id expected f keeps db.issues);
      rest = ground arith;
    }
