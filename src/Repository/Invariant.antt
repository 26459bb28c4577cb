-- ===== src/Repository/Invariant.antt =====
-- apps/issue-service-nest/src/infrastructure/postgres-issue.repository.ts: the invariant of the
-- tables, which ties the versions of each issue to its events and its history.
use jira_microservices_lab.Common.{
  ℕ, suc, ◌≡◌, ap, ◌∙◌, Text, text_eq, text_eq_iff, List, [], ◌∷◌, ◌++◌, up_to, if◌then◌else◌,
  arith,
}
use jira_microservices_lab.Domain.Issue.{Issue, IssueHistory}
use jira_microservices_lab.Repository.Db.{Db, OutboxRow}
use jira_microservices_lab.Repository.Table.{issue_ids, IsUnique}
use jira_microservices_lab.Repository.Changes.{version_at, Change}

-- The versions of the events of an aggregate, in the order of the table.
unfoldable pub versions_of : Text → List OutboxRow → List ℕ
versions_of id [] = []
versions_of id (r ∷ rows) =
    if text_eq r.aggregate_id id
    then r.aggregate_version ∷ versions_of id rows
    else versions_of id rows

-- The number of history rows of an issue.
unfoldable pub changes_of : Text → List IssueHistory → ℕ
changes_of id [] = 0
changes_of id (h ∷ rows) =
    if text_eq h.issue_id id then suc (changes_of id rows) else changes_of id rows

pub record IsValid (db : Db) : Type 0 where
  pub unique : IsUnique (issue_ids db.issues)
  pub event_per_version : (id : Text) → versions_of id db.outbox ≡ up_to (version_at id db)
  pub change_per_version : (id : Text) → changes_of id db.history ≡ version_at id db

versions_of-snoc :
    (id : Text) (rows : List OutboxRow) (r : OutboxRow)
    → versions_of id (rows ++ r ∷ []) ≡ (
        if text_eq r.aggregate_id id
        then versions_of id rows ++ r.aggregate_version ∷ []
        else versions_of id rows)
unfolding versions_of
versions_of-snoc id [] r = ground arith
versions_of-snoc id (x ∷ rows) r = ground (arith, versions_of-snoc id rows r)

changes_of-snoc :
    (id : Text) (rows : List IssueHistory) (h : IssueHistory)
    → changes_of id (rows ++ h ∷ [])
      ≡ (if text_eq h.issue_id id then suc (changes_of id rows) else changes_of id rows)
unfolding changes_of
changes_of-snoc id [] h = ground arith
changes_of-snoc id (x ∷ rows) h = ground (arith, changes_of-snoc id rows h)

-- The version of each issue after a change.
pub Change-version_at :
    (db db' : Db) (row : Issue) (id : Text)
    → Change db db' row
    → version_at id db' ≡ (if text_eq row.id id then suc (version_at id db) else version_at id db)
Change-version_at db db' row id c = ground (arith, c.rows id, c.counted, text_eq_iff row.id id)

-- A change keeps the invariant.
pub Change-IsValid : (db db' : Db) (row : Issue) → IsValid db → Change db db' row → IsValid db'
Change-IsValid db db' row v c = record {
  unique = c.unique;
  event_per_version = λ id.
      ap (versions_of id) c.event_added
      ∙ versions_of-snoc id db.outbox c.event
      ∙ ground (
        arith,
        v.event_per_version id,
        Change-version_at db db' row id c,
        c.event_of,
        c.event_version,
        c.counted,
        text_eq_iff row.id id,
        ap (λ t. text_eq t id) c.event_of,
      );
  change_per_version = λ id.
      ap (changes_of id) c.change_added
      ∙ changes_of-snoc id db.history c.change
      ∙ ground (
        arith,
        v.change_per_version id,
        Change-version_at db db' row id c,
        c.change_of,
        text_eq_iff row.id id,
        ap (λ t. text_eq t id) c.change_of,
      );
}

-- Rewriting rows of the outbox keeps the invariant, if aggregates and versions stay.
pub outbox-IsValid :
    (db : Db) (outbox : List OutboxRow)
    → ((id : Text) → versions_of id outbox ≡ versions_of id db.outbox)
    → IsValid db
    → IsValid (record db { outbox = outbox })
outbox-IsValid db outbox same v = record {
  unique = v.unique;
  event_per_version = λ id. same id ∙ v.event_per_version id;
  change_per_version = v.change_per_version;
}
