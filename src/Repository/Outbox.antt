-- ===== src/Repository/Outbox.antt =====
-- apps/issue-service-nest/src/infrastructure/postgres-issue.repository.ts: the operations on the
-- table of events that wait for publication. Times are microseconds. Rows with the same
-- `occurred_at` are taken in the order of the table.
pub mod Claims
pub mod Alone
use jira_microservices_lab.Common.{
  sort_rows, ℕ, ◌+◌, ◌-◌, ◌*◌, ◌/◌, ◌^◌, min, Text, text_eq, text_lt, contains, Option, Bool, ◌&&◌,
  not, none, some, List, [], ◌∷◌, map, keep, any_of, take, first, length, ltb, leb, ◌==◌, is_some,
  if◌then◌else◌,
}
use jira_microservices_lab.Json.{Value, Number, nat, neg}
use jira_microservices_lab.Repository.Db.{Db, OutboxRow}

abbrev pub outbox_max_publish_attempts : ℕ
outbox_max_publish_attempts = 20

abbrev pub second : ℕ
second = 1000000

-- OUTBOX_CLAIM_LEASE_SECONDS
abbrev pub outbox_claim_lease : ℕ
outbox_claim_lease = 30 * second

pub record ClaimedOutboxEvent : Type 0 where
  pub event_id : Text
  pub event_type : Text
  pub aggregate_id : Text
  pub aggregate_version : ℕ
  pub project_id : Text
  pub actor_user_id : Text
  pub occurred_at : ℕ
  pub payload : Value
  pub trace_context : Option Value

unfoldable pub to_claimed : OutboxRow → ClaimedOutboxEvent
to_claimed row = record {
  event_id = row.event_id;
  event_type = row.event_type;
  aggregate_id = row.aggregate_id;
  aggregate_version = row.aggregate_version;
  project_id = row.project_id;
  actor_user_id = row.actor_user_id;
  occurred_at = row.occurred_at;
  payload = row.payload;
  trace_context = row.trace_context;
}

abbrev pub is_unpublished : OutboxRow → Bool
is_unpublished row = not (is_some row.published_at)

-- The NOT EXISTS condition: `earlier` is an unpublished event of the same aggregate.
abbrev pub is_earlier : OutboxRow → OutboxRow → Bool
is_earlier candidate earlier =
    text_eq earlier.aggregate_id candidate.aggregate_id
    && is_unpublished earlier
    && ltb earlier.aggregate_version candidate.aggregate_version

-- The WHERE clause of the claim.
unfoldable pub is_claimable : ℕ → List OutboxRow → OutboxRow → Bool
is_claimable now outbox candidate =
    is_unpublished candidate
    && ltb candidate.publish_attempts outbox_max_publish_attempts
    && leb candidate.next_attempt_at now
    && not (any_of (is_earlier candidate) outbox)

-- ORDER BY candidate.occurred_at
abbrev pub by_time : OutboxRow → OutboxRow → Bool
by_time a b = ltb a.occurred_at b.occurred_at

-- The comparator of the JavaScript sort: by time, then by identifier.
abbrev pub by_time_and_id : OutboxRow → OutboxRow → Bool
by_time_and_id a b =
    if a.occurred_at == b.occurred_at then text_lt a.event_id b.event_id else by_time a b

-- The identifiers that the inner SELECT … FOR UPDATE SKIP LOCKED yields; `locked` holds of the rows
-- that another transaction has locked.
unfoldable pub claimed_ids : ℕ → (Text → Bool) → ℕ → List OutboxRow → List Text
unfolding is_claimable sort_rows
claimed_ids limit locked now outbox =
    map (λ r. r.event_id)
      (take limit (
        keep (λ r. not (locked r.event_id))
          (sort_rows by_time (keep (is_claimable now outbox) outbox))))

abbrev pub is_chosen : List Text → OutboxRow → Bool
is_chosen event_ids r = contains r.event_id event_ids

abbrev pub lease : ℕ → OutboxRow → OutboxRow
lease now row = record row { next_attempt_at = now + outbox_claim_lease }

-- UPDATE outbox_events … WHERE p RETURNING *, with the rows it rewrites.
unfoldable pub rewrite :
    (OutboxRow → Bool) → (OutboxRow → OutboxRow) → List OutboxRow → List OutboxRow
rewrite p f [] = []
rewrite p f (r ∷ rows) = (if p r then f r else r) ∷ rewrite p f rows

unfoldable pub claim_pending_events : ℕ → (Text → Bool) → ℕ → Db → List ClaimedOutboxEvent × Db
unfolding claimed_ids rewrite to_claimed sort_rows
claim_pending_events limit locked now db =
    let chosen = is_chosen (claimed_ids limit locked now db.outbox) in
    (
      map to_claimed (sort_rows by_time_and_id (map (lease now) (keep chosen db.outbox))),
      record db { outbox = rewrite chosen (lease now) db.outbox },
    )

abbrev pub set_published : ℕ → OutboxRow → OutboxRow
set_published now r = record r { published_at = some now }

unfoldable pub mark_events_published : List Text → ℕ → Db → Db
unfolding rewrite
mark_events_published event_ids now db = record db {
  outbox = rewrite (is_chosen event_ids) (set_published now) db.outbox;
}

-- LEAST(POWER(2, LEAST(publish_attempts, 20)) * INTERVAL '1 second', INTERVAL '5 minutes')
unfoldable pub backoff : ℕ → ℕ
backoff publish_attempts = min (2 ^ min publish_attempts 20 * second) (300 * second)

abbrev pub has_event_id : Text → OutboxRow → Bool
has_event_id event_id r = text_eq r.event_id event_id

abbrev pub failed_once : Text → ℕ → OutboxRow → OutboxRow
failed_once error now r = record r {
  publish_attempts = r.publish_attempts + 1;
  last_error = some (take 1000 error);
  next_attempt_at = now + backoff r.publish_attempts;
}

pub record FailureCount : Type 0 where
  pub attempts : ℕ
  pub abandoned : Bool

-- `rows[0]?.publish_attempts ?? 0`
abbrev attempts_of : Option OutboxRow → ℕ
attempts_of none = 0
attempts_of (some r) = r.publish_attempts

unfoldable pub record_publish_failure : Text → Text → ℕ → Db → FailureCount × Db
unfolding rewrite
record_publish_failure event_id error now db =
    let chosen = has_event_id event_id in
    let attempts = attempts_of (first (map (failed_once error now) (keep chosen db.outbox))) in
    (
      record { attempts = attempts; abandoned = leb outbox_max_publish_attempts attempts },
      record db { outbox = rewrite chosen (failed_once error now) db.outbox },
    )

pub record OutboxStatus : Type 0 where
  pub pending : ℕ
  pub abandoned : ℕ
  pub oldest_pending_seconds : Option Number

-- min(occurred_at) of some rows
abbrev pub older : ℕ → Option ℕ → Option ℕ
older t none = some t
older t (some u) = some (min t u)

unfoldable pub oldest : List OutboxRow → Option ℕ
oldest [] = none
oldest (r ∷ rows) = older r.occurred_at (oldest rows)

abbrev pub is_pending : OutboxRow → Bool
is_pending r = ltb r.publish_attempts outbox_max_publish_attempts

-- floor(EXTRACT(EPOCH FROM now - t))
unfoldable pub floor_seconds : ℕ → ℕ → Number
floor_seconds now t = if leb t now then nat ((now - t) / second) else neg ((t - now - 1) / second)

abbrev pub age : ℕ → Option ℕ → Option Number
age now none = none
age now (some t) = some (floor_seconds now t)

unfoldable pub outbox_status : ℕ → Db → OutboxStatus
unfolding oldest floor_seconds
outbox_status now db =
    let rows = keep is_unpublished db.outbox in
    record {
      pending = length (keep is_pending rows);
      abandoned = length (keep (λ r. not (is_pending r)) rows);
      oldest_pending_seconds = age now (oldest (keep is_pending rows));
    }
