-- ===== src/IssueService/Health/Backlog.antt =====
-- apps/issue-service-nest/src/health/health.controller.ts with `outboxStatus` of
-- apps/issue-service-nest/src/infrastructure/postgres-issue.repository.ts: what a good answer says of
-- the events that wait.
use jira_microservices_lab.Common.{
  ℕ, suc, ◌+◌, ◌-◌, ◌*◌, ◌≡◌, ◌<◌, ◌≤◌, Text, codes, Bool, true, not, Option, none, some, List, [],
  ◌∷◌, length, keep, All, keep-All, subst, arith,
}
use jira_microservices_lab.Json.{str, get}
use jira_microservices_lab.Repository.Db.{Db, OutboxRow}
use jira_microservices_lab.Repository.Outbox.{
  outbox_status, is_unpublished, is_pending, older, oldest, age, OutboxStatus, floor_seconds,
  second, outbox_max_publish_attempts,
}
use jira_microservices_lab.IssueService.Health.{
  is_fresh, stale_pending_seconds, outbox_healthy, get_health,
}

-- The oldest of some events, if there are any, is no younger than a given time.
abbrev NotBefore : ℕ → Option ℕ → Type 0
NotBefore t none = Unit
NotBefore t (some u) = t ≤ u

older-NotBefore : (t u : ℕ) (o : Option ℕ) → NotBefore t (older u o) → (t ≤ u) × NotBefore t o
older-NotBefore t u none h = (h, tt)
older-NotBefore t u (some v) h = (omega arith, omega arith)

oldest-NotBefore :
    (t : ℕ) (rows : List OutboxRow)
    → NotBefore t (oldest rows)
    → All (λ (r : OutboxRow). t ≤ r.occurred_at) rows
unfolding oldest
oldest-NotBefore t [] h = tt
oldest-NotBefore t (r ∷ rows) h =
    let (here, rest) = older-NotBefore t r.occurred_at (oldest rows) h in
    (here, oldest-NotBefore t rows rest)

fresh-NotBefore :
    (now : ℕ) (o : Option ℕ)
    → is_fresh (age now o) ≡ true
    → NotBefore (suc now - stale_pending_seconds * second) o
unfolding floor_seconds
fresh-NotBefore now none h = tt
fresh-NotBefore now (some t) h = ground arith

none_abandoned :
    (rows : List OutboxRow)
    → length (keep (λ r. not (is_pending r)) rows) ≡ 0
    → All (λ r. is_pending r ≡ true) rows
none_abandoned [] h = tt
none_abandoned (r ∷ rows) h = (ground arith, none_abandoned rows (ground arith))

healthy_status :
    (outbox : Option OutboxStatus) (is_connected : Bool) (timestamp : Text)
    → get "status" (get_health outbox is_connected timestamp) ≡ str (codes "ok")
    → (outbox_healthy outbox ≡ true) × (is_connected ≡ true)
unfolding get get_health codes
healthy_status outbox is_connected timestamp h = ground arith

-- Tries are left for an event, and it is less than five minutes old.
abbrev pub IsMoving : ℕ → OutboxRow → Type 0
IsMoving now r =
    (r.publish_attempts < outbox_max_publish_attempts) × (now < r.occurred_at + 300 * second)

IsMoving-All :
    (now : ℕ) (rows : List OutboxRow)
    → All (λ r. is_pending r ≡ true) rows
    → All (λ (r : OutboxRow). suc now - stale_pending_seconds * second ≤ r.occurred_at) rows
    → All (IsMoving now) rows
IsMoving-All now [] p n = tt
IsMoving-All now (r ∷ rows) p n =
    let pending = p.0 in
    let young = n.0 in ((ground arith, omega arith), IsMoving-All now rows p.1 n.1)

healthy_outbox :
    (now : ℕ) (db : Db)
    → outbox_healthy (some (outbox_status now db)) ≡ true
    → All (IsMoving now) (keep is_unpublished db.outbox)
unfolding outbox_status
healthy_outbox now db h =
    let rows = keep is_unpublished db.outbox in
    let pending = none_abandoned rows (ground arith) in
    let same : keep is_pending rows ≡ rows = keep-All is_pending rows pending in
    let fresh : is_fresh (age now (oldest (keep is_pending rows))) ≡ true = ground arith in
    let young =
      fresh-NotBefore now (oldest rows)
        (subst (λ xs. is_fresh (age now (oldest xs)) ≡ true) same fresh) in
    IsMoving-All now rows pending (oldest-NotBefore _ rows young)

-- The status of the issue service is "ok" only if Kafka is connected and every event that waits
-- for its publication has tries left and is less than five minutes old.
pub get_health_ok :
    (now : ℕ) (db : Db) (is_connected : Bool) (timestamp : Text)
    → get "status" (get_health (some (outbox_status now db)) is_connected timestamp)
      ≡ str (codes "ok")
    → (is_connected ≡ true) × All (IsMoving now) (keep is_unpublished db.outbox)
get_health_ok now db is_connected timestamp h =
    let (healthy, connected) =
      healthy_status (some (outbox_status now db)) is_connected timestamp h in
    (connected, healthy_outbox now db healthy)
