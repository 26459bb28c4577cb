-- ===== src/Repository/Progress.antt =====
-- apps/issue-service-nest/src/infrastructure/postgres-issue.repository.ts: when a versioned
-- write goes through, and how it is refused.
pub mod Decided
use jira_microservices_lab.Common.{
  ℕ, suc, ◌+◌, ◌≡◌, ◌≢◌, ◌≤◌, ◌<◌, refl, ap, sym, ◌∙◌, subst, Text, text_eq, contains, Bool, true,
  false, not, Option, none, some, List, [], ◌∷◌, ◌++◌, map, first, leb, ◌==◌, ◌⊎◌, inl, inr,
  Option-cases, Bool-cases, if◌then◌else◌, arith,
}
use Prim.Native.String.{String}
use jira_microservices_lab.Json.{Value}
use jira_microservices_lab.Domain.Errors.{Result, ok, err, concurrent_issue_modification}
use jira_microservices_lab.Domain.Issue.{Issue, ValidatedIssueTransition}
use jira_microservices_lab.Repository.Db.{
  Db, Env, Tx, pure, int_max, and_then, ◌>>=◌, ◌>>◌, check, transaction,
}
use jira_microservices_lab.Repository.Table.{
  find_row, update_where, issue_ids, is_target, IsUnique, Outcome, missed, hit,
  update_where-Outcome,
}
use jira_microservices_lab.Repository.Statements.{
  insert_history, history_row, insert_event, event_row, next_version, update_with_version,
}
use jira_microservices_lab.Repository.Writes.{
  UpdateIssueData, set_details, set_assignee, set_status, update_work, update_issue, assign_work,
  assign_issue, transition_work, transition_issue,
}

-- The identifiers that a request draws for its history row and its event are new.
abbrev pub IsFresh : Env → Db → Type 0
IsFresh env db =
    (contains env.history_id (map (λ h. h.id) db.history) ≡ false)
    × (contains env.event_id (map (λ e. e.event_id) db.outbox) ≡ false)

record_succeeds :
    {A : Type 0} (env : Env) (issue : Issue) (actor : Text) (action event_type : String)
    (from to payload : Value) (result : A) (db : Db)
    → env.is_uuid actor ≡ true
    → IsFresh env db
    → (db' : Db) × ((insert_history env issue actor action from to
            >> (insert_event env issue actor event_type payload >> pure result))
          db
        ≡ ok (result, db'))
unfolding insert_history insert_event
record_succeeds env issue actor action event_type from to payload result db named fresh = (
  record db {
    history = db.history ++ history_row env issue actor action from to ∷ [];
    outbox = db.outbox ++ event_row env issue actor event_type payload ∷ [];
  },
  ground (arith, named, fresh),
)

module _ (env : Env) (issue : Issue) (expected : ℕ) (setters : Issue → Issue)
    (same_id : (r : Issue) → (setters r).id ≡ r.id) (db : Db)
    (unique : IsUnique (issue_ids db.issues)) where
  new_id : (r : Issue) → (next_version env.db_now setters r).id ≡ r.id
  unfolding next_version
  new_id r = same_id r

  update_succeeds :
      (before : Issue)
      → find_row issue.id db.issues ≡ some before
      → before.version ≡ expected
      → expected < int_max
      → (rows : List Issue) × (update_with_version env issue expected setters db
          ≡ ok (next_version env.db_now setters before, record db { issues = rows }))
  unfolding update_with_version
  update_succeeds before found version bound =
      elim (update_where-Outcome issue.id expected (next_version env.db_now setters) new_id
        db.issues unique) [
          | missed e h ↦ absurd (h before found version)
          | hit r e v returned rows ↦ (
            (update_where (is_target issue.id expected) (next_version env.db_now setters)
                db.issues).0,
            ground (arith, e, found, returned, version, bound),
          )
        ]

  update_refused :
      ((r : Issue) → find_row issue.id db.issues ≡ some r → r.version ≢ expected)
      → update_with_version env issue expected setters db ≡ err concurrent_issue_modification
  unfolding update_with_version
  update_refused h =
      elim (update_where-Outcome issue.id expected (next_version env.db_now setters) new_id
        db.issues unique) [
          | missed e k ↦ ground (arith, e)
          | hit r e v returned rows ↦ absurd (h r e v)
        ]

-- A write is decided by the version: it returns the row with its next version if the stored version
-- is the expected one; if not, or without a row, it is refused as a concurrent modification and
-- nothing is written.
abbrev pub IsDecided : Db → Text → ℕ → (Issue → Issue) → Result Issue × Db → Type 0
IsDecided db id expected f result =
    ((before : Issue) × (find_row id db.issues ≡ some before)
      × (before.version ≡ expected)
      × (result.0 ≡ ok (f before)))
    ⊎ (((r : Issue) → find_row id db.issues ≡ some r → r.version ≢ expected)
        × (result ≡ (err concurrent_issue_modification, db)))

module _ (env : Env) (issue : Issue) (expected : ℕ) (setters : Issue → Issue)
    (same_id : (r : Issue) → (setters r).id ≡ r.id) (actor : Text) (action event_type : String)
    (from to payload : Issue → Value) (db : Db) (named : env.is_uuid actor ≡ true) where
  abbrev write_and_record : Tx Issue
  write_and_record = update_with_version env issue expected setters >>= λ updated.
      insert_history env updated actor action (from updated) (to updated)
      >> (insert_event env updated actor event_type (payload updated) >> pure updated)

  written :
      (before : Issue) (rows : List Issue)
      → IsFresh env db
      → update_with_version env issue expected setters db
        ≡ ok (next_version env.db_now setters before, record db { issues = rows })
      → (transaction write_and_record db).0 ≡ ok (next_version env.db_now setters before)
  unfolding transaction
  written before rows fresh e =
      let row = next_version env.db_now setters before in
      let (db', k) =
        record_succeeds env row actor action event_type (from row) (to row) (payload row) row
          (record db { issues = rows }) named fresh in
      ground (arith, e, k)

  refused :
      update_with_version env issue expected setters db ≡ err concurrent_issue_modification
      → transaction write_and_record db ≡ (err concurrent_issue_modification, db)
  unfolding transaction
  refused e = ground (arith, e)

  pub versioned_write-IsDecided :
      IsUnique (issue_ids db.issues)
      → IsFresh env db
      → expected < int_max
      → IsDecided db issue.id expected
          (next_version env.db_now setters)
          (transaction write_and_record db)
  versioned_write-IsDecided unique fresh bound = elim (Option-cases (find_row issue.id db.issues)) [
    | inl n ↦
        let stale : (r : Issue) → find_row issue.id db.issues ≡ some r → r.version ≢ expected =
          λ r h. absurd (ground (arith, n, h)) in
        inr (stale, refused (update_refused env issue expected setters same_id db unique stale))
    | inr (before, found) ↦ elim (Bool-cases (before.version == expected)) [
      | inl e ↦
          let version : before.version ≡ expected = ground arith in
          let (rows, k) =
            update_succeeds env issue expected setters same_id db unique before found version
              bound in
          inl (before, found, version, written before rows fresh k)
      | inr e ↦
          let stale : (r : Issue) → find_row issue.id db.issues ≡ some r → r.version ≢ expected =
            λ r h. ground (arith, found, h, e) in
          inr (stale, refused (update_refused env issue expected setters same_id db unique stale))
    ]
  ]
