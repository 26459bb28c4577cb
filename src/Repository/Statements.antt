-- ===== src/Repository/Statements.antt =====
-- apps/issue-service-nest/src/infrastructure/postgres-issue.repository.ts: the single statements
-- that write issues, their history and their events. A row of the table and the issue that
-- `toIssue` makes of it have the same fields, so both are an `Issue`. The identifiers of the
-- users who act have not been validated, and must be a UUID. The column checks that validated
-- data meets, and the reference of a history row or a comment to the issue that the same
-- transaction wrote, never fail and are left out.
use Prim.Native.String.{String}
use jira_microservices_lab.Common.{
  ℕ, ◌+◌, Text, codes, text_eq, contains, Option, Bool, true, ◌&&◌, not, none, some, List, [], ◌∷◌,
  ◌++◌, map, any_of, first, length, leb, ◌==◌, if◌then◌else◌,
}
use jira_microservices_lab.Json.{Value, Fields, obj, end, field}
use jira_microservices_lab.Domain.Errors.{ok, err, concurrent_issue_modification}
use jira_microservices_lab.Domain.Issue.{Issue, IssueComment, IssueHistory}
use jira_microservices_lab.Repository.Db.{OutboxRow, Env, int_max, Tx, pure, ◌>>◌, check}
use jira_microservices_lab.Repository.Table.{update_where, issue_ids, is_target}

-- The upsert of project_issue_sequences: the first number of a project is 1.
unfoldable pub bump : Text → List (Text × ℕ) → ℕ × List (Text × ℕ)
bump project_id [] = (1, (project_id, 1) ∷ [])
bump project_id ((p, n) ∷ rest) =
    let (number, rest') = bump project_id rest in
    if text_eq p project_id then (n + 1, (p, n + 1) ∷ rest) else (number, (p, n) ∷ rest')

unfoldable pub next_number : Text → Tx ℕ
unfolding bump
next_number project_id db =
    let (number, sequences) = bump project_id db.sequences in
    (check (leb number int_max) >> pure number) (record db { sequences = sequences })

-- A foreign key that may be null.
abbrev pub refers : Option Text → List Text → Bool
refers none ids = true
refers (some id) ids = contains id ids

-- The unique constraints of the table of issues.
abbrev pub same_number : Issue → Issue → Bool
same_number r s = text_eq r.project_id s.project_id && r.number == s.number

abbrev pub same_key : Issue → Issue → Bool
same_key r s = text_eq r.project_id s.project_id && text_eq r.key s.key

-- `issue_key VARCHAR(50)`
abbrev pub key_max : ℕ
key_max = 50

unfoldable pub insert_issue : Env → Issue → Tx Issue
insert_issue env row db =
    (do
      check (not (contains row.id (issue_ids db.issues)))
      check (not (any_of (same_number row) db.issues))
      check (not (any_of (same_key row) db.issues))
      check (leb (length row.key) key_max)
      check (env.is_uuid row.reporter_user_id)
      check (refers row.epic_id (map (λ e. e.id) db.epics))
      check (refers row.sprint_id (map (λ s. s.id) db.sprints))
      λ db'. ok (row, record db' { issues = db'.issues ++ row ∷ [] }))
      db

unfoldable pub history_row : Env → Issue → Text → String → Value → Value → IssueHistory
history_row env issue actor_user_id action from_value to_value = record {
  id = env.history_id;
  issue_id = issue.id;
  actor_user_id = actor_user_id;
  action = codes action;
  from_value = from_value;
  to_value = to_value;
  created_at = env.history_now;
}

unfoldable pub insert_history : Env → Issue → Text → String → Value → Value → Tx (Unit {0})
unfolding history_row
insert_history env issue actor_user_id action from_value to_value db =
    let row = history_row env issue actor_user_id action from_value to_value in
    (do
      check (env.is_uuid actor_user_id)
      check (not (contains env.history_id (map (λ h. h.id) db.history)))
      λ db'. ok (tt, record db' { history = db'.history ++ row ∷ [] }))
      db

-- `Object.keys(traceContext).length > 0 ? traceContext : null`
abbrev trace_or_null : Fields → Option Value
trace_or_null end = none
trace_or_null (field k v fs) = some (obj (field k v fs))

unfoldable pub event_row : Env → Issue → Text → String → Value → OutboxRow
event_row env issue actor_user_id event_type payload = record {
  event_id = env.event_id;
  event_type = codes event_type;
  aggregate_id = issue.id;
  aggregate_version = issue.version;
  project_id = issue.project_id;
  actor_user_id = actor_user_id;
  payload = payload;
  occurred_at = env.event_now;
  trace_context = trace_or_null env.trace_context;
  published_at = none;
  publish_attempts = 0;
  last_error = none;
  next_attempt_at = env.db_now;
}

unfoldable pub insert_event : Env → Issue → Text → String → Value → Tx (Unit {0})
unfolding event_row
insert_event env issue actor_user_id event_type payload db =
    let row = event_row env issue actor_user_id event_type payload in
    (do
      check (env.is_uuid actor_user_id)
      check (not (contains env.event_id (map (λ e. e.event_id) db.outbox)))
      λ db'. ok (tt, record db' { outbox = db'.outbox ++ row ∷ [] }))
      db

unfoldable pub insert_comment : Env → IssueComment → Tx IssueComment
insert_comment env row db =
    (do
      check (env.is_uuid row.author_user_id)
      check (not (contains row.id (map (λ c. c.id) db.comments)))
      λ db'. ok (row, record db' { comments = db'.comments ++ row ∷ [] }))
      db

-- UPDATE issues SET …, version = version + 1, updated_at = NOW() on one row.
unfoldable pub next_version : ℕ → (Issue → Issue) → Issue → Issue
next_version db_now setters r = record (setters r) { version = r.version + 1; updated_at = db_now }

unfoldable pub update_with_version : Env → Issue → ℕ → (Issue → Issue) → Tx Issue
unfolding next_version
update_with_version env issue expected_version setters db =
    let (rows, returned) =
      update_where (is_target issue.id expected_version) (next_version env.db_now setters)
        db.issues in
    elim (first returned) [
      | none ↦ err concurrent_issue_modification
      | some row ↦ (check (leb row.version int_max) >> pure row) (record db { issues = rows })
    ]
