-- ===== src/IssueService/Health.antt =====
-- apps/issue-service-nest/src/health/health.controller.ts: what the issue service says of its health.
pub mod Backlog
use jira_microservices_lab.Common.{
  ℕ, Text, codes, Bool, true, false, Option, none, some, ◌&&◌, ◌==◌, ltb, is_some,
}
use jira_microservices_lab.Json.{
  Number, nat, neg, fraction, Value, Fields, str, obj, num, null, end, field,
}
use jira_microservices_lab.Repository.Outbox.{OutboxStatus}

abbrev pub stale_pending_seconds : ℕ
stale_pending_seconds = 300

-- `n < most`; the seconds are a floor, which is no fraction.
abbrev pub number_below : Number → ℕ → Bool
number_below (nat n) most = ltb n most
number_below (neg n) most = true
number_below fraction most = false

-- `(seconds ?? 0) < STALE_PENDING_SECONDS`
abbrev pub is_fresh : Option Number → Bool
is_fresh none = true
is_fresh (some n) = number_below n stale_pending_seconds

-- `none` if the query failed.
abbrev pub outbox_healthy : Option OutboxStatus → Bool
outbox_healthy none = false
outbox_healthy (some outbox) = outbox.abandoned == 0 && is_fresh outbox.oldest_pending_seconds

abbrev ok_or_down : Bool → Value
ok_or_down true = str (codes "ok")
ok_or_down false = str (codes "down")

abbrev ok_or_degraded : Bool → Value
ok_or_degraded true = str (codes "ok")
ok_or_degraded false = str (codes "degraded")

abbrev number_or_null : Option Number → Value
number_or_null none = null
number_or_null (some n) = num n

abbrev outbox_value : Option OutboxStatus → Value
outbox_value none = null
outbox_value (some outbox) = obj (
    field "pending" (num (nat outbox.pending)) (
      field "abandoned" (num (nat outbox.abandoned))
        (field "oldestPendingSeconds" (number_or_null outbox.oldest_pending_seconds) end)))

-- The body of the answer, with status 200, at a time that `timestamp` writes.
unfoldable pub get_health : Option OutboxStatus → Bool → Text → Fields
get_health outbox is_connected timestamp =
    field "status" (ok_or_degraded (outbox_healthy outbox && is_connected)) (
      field "service" (str (codes "issue-service")) (
        field "version" (str (codes "0.1.0")) (
          field "timestamp" (str timestamp) (
            field "dependencies"
              (obj (
                field "database" (ok_or_down (is_some outbox)) (
                  field "redis" (str (codes "not_applicable"))
                    (field "kafka" (ok_or_down is_connected) end))))
              (field "outbox" (outbox_value outbox) end)))))
