-- ===== src/Repository/Db.antt =====
-- The tables of the issue service (apps/issue-service-nest/migrations) and its transactions
-- (apps/issue-service-nest/src/infrastructure/database.ts).
use jira_microservices_lab.Common.{ℕ, Text, Option, Bool, true, false, List}
use jira_microservices_lab.Json.{Value, Fields}
use jira_microservices_lab.Domain.Errors.{Error, Result, ok, err, failure}
use jira_microservices_lab.Domain.Issue.{Issue, IssueComment, IssueHistory}
use jira_microservices_lab.Domain.Planning.{Epic, Sprint}

pub record OutboxRow : Type 0 where
  pub event_id : Text
  pub event_type : Text
  pub aggregate_id : Text
  pub aggregate_version : ℕ
  pub project_id : Text
  pub actor_user_id : Text
  pub payload : Value
  pub occurred_at : ℕ
  pub trace_context : Option Value
  pub published_at : Option ℕ
  pub publish_attempts : ℕ
  pub last_error : Option Text
  pub next_attempt_at : ℕ

-- `sequences` is the table project_issue_sequences. New rows stand at the end of a table.
pub record Db : Type 0 where
  pub sequences : List (Text × ℕ)
  pub issues : List Issue
  pub comments : List IssueComment
  pub history : List IssueHistory
  pub outbox : List OutboxRow
  pub epics : List Epic
  pub sprints : List Sprint

-- What one request draws from outside: the values of `randomUUID()` for its new row, its history
-- row and its event, the values of `new Date()` for them, the database's `NOW()`, and the
-- trace context that `propagation.inject` fills in. `is_uuid` tells the texts that the type UUID of the
-- database takes; user identifiers are in its spelling, so that they are stored as they are.
pub record Env : Type 0 where
  pub is_uuid : Text → Bool
  pub row_id : Text
  pub history_id : Text
  pub event_id : Text
  pub row_now : ℕ
  pub history_now : ℕ
  pub event_now : ℕ
  pub db_now : ℕ
  pub trace_context : Fields

-- The largest INTEGER of PostgreSQL; `n + 1` past it is an error of the database.
abbrev pub int_max : ℕ
int_max = 2147483647

-- Work inside a transaction: it throws, or returns with the rows that it has written.
abbrev pub Tx : Type 0 → Type 0
Tx A = Db → Result (A × Db)

abbrev pub pure : {A : Type 0} → A → Tx A
pure a db = ok (a, db)

abbrev pub throw : {A : Type 0} → Error → Tx A
throw e db = err e

-- Go on from what a first part returned.
abbrev pub and_then : {A B : Type 0} → Result (A × Db) → (A → Tx B) → Result (B × Db)
and_then (ok (a, db)) f = f a db
and_then (err e) f = err e

infixl 5 ◌>>=◌ ◌>>◌
abbrev pub ◌>>=◌ : {A B : Type 0} → Tx A → (A → Tx B) → Tx B
◌>>=◌ m f db = and_then (m db) f

abbrev pub ◌>>◌ : {B : Type 0} → Tx (Unit {0}) → Tx B → Tx B
m >> k = m >>= λ _. k

-- A constraint of the database holds, or the statement fails.
abbrev pub check : Bool → Tx (Unit {0})
check true = pure tt
check false = throw failure

-- What a caller of `transaction` gets, beside what stays in the database: COMMIT keeps the rows
-- written, ROLLBACK restores those from before BEGIN.
unfoldable pub transaction : {A : Type 0} → Tx A → Db → Result A × Db
transaction work db = elim (work db) [ ok (a, db') ↦ (ok a, db') | err e ↦ (err e, db) ]
