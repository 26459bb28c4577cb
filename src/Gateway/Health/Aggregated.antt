-- ===== src/Gateway/Health/Aggregated.antt =====
-- apps/api-gateway-nest/src/presentation/health/health.service.ts, and what it reads of
-- apps/issue-service-nest/src/health/health.controller.ts: when all services are well.
use Prim.Native.String.{String}
use jira_microservices_lab.Common.{
  ℕ, ◌≡◌, refl, ◌↔◌, Text, codes, Bool, true, Option, some, List, [], ◌∷◌, map, All, all_of, keep,
  text_eq, text_eq_iff, ap, sym, ◌∙◌, inl, inr, Bool-cases, arith,
}
use jira_microservices_lab.Json.{Value, Fields, str, obj, get}
use jira_microservices_lab.Repository.Db.{Db}
use jira_microservices_lab.Repository.Outbox.{outbox_status, is_unpublished}
use jira_microservices_lab.IssueService.Health.{get_health}
use jira_microservices_lab.IssueService.Health.Backlog.{IsMoving, get_health_ok}
use jira_microservices_lab.Gateway.Client.{is_ok}
use jira_microservices_lab.Gateway.Health.{
  ServiceTarget, Raised, Read, value, HealthReply, failed, replied, ok, targets, issue_target,
  health_url, of_reply, of_read, is_status_ok, status_of, check_service, get_services_health,
}

-- A service answers with a status of 2xx, and with an object whose status is "ok".
abbrev pub IsWell : HealthReply → Type 0
IsWell reply =
    (status : ℕ) × (fields : Fields) × (reply ≡ replied status (value (obj fields)))
    × (is_ok status ≡ true)
    × (get "status" fields ≡ str (codes "ok"))

status_of_ok : (v : Value) → status_of v ≡ ok → v ≡ str (codes "ok")
status_of_ok (str t) h = ground (arith, text_eq_iff t (codes "ok"), ap str)
status_of_ok _ h = absurd (ground arith)

module _ (type_error : Raised) (target : ServiceTarget) (url : Text) (latency : ℕ) where
  read-IsWell :
      (status : ℕ) (read : Read)
      → is_ok status ≡ true
      → (of_read type_error target url latency read).status ≡ ok
      → IsWell (replied status read)
  read-IsWell status (value (obj fields)) k h =
      (status, fields, refl, k, status_of_ok (get "status" fields) h)
  read-IsWell status _ k h = absurd (ground arith)

  reply-IsWell :
      (reply : HealthReply)
      → (of_reply type_error target url latency reply).status ≡ ok
      → IsWell reply
  reply-IsWell (failed e) h = absurd (ground arith)
  reply-IsWell (replied status read) h = elim (Bool-cases (is_ok status)) [
    | inl k ↦ read-IsWell status read k (ground arith)
    | inr k ↦ absurd (ground arith)
  ]

  well_reply :
      (reply : HealthReply)
      → IsWell reply
      → (of_reply type_error target url latency reply).status ≡ ok
  unfolding codes text_eq
  well_reply reply (status, fields, e, k, w) =
      let read : status_of (get "status" fields) ≡ ok = ap status_of w in rw e (rw k read)

module _ (type_error : Raised) (env : String → Option Text) (fetch : Text → HealthReply × ℕ) where
  -- The reply of a service to its check.
  abbrev pub reply_of : ServiceTarget → HealthReply
  reply_of target = (fetch (health_url env target)).0

  check_service_iff :
      (target : ServiceTarget)
      → ((check_service type_error env fetch target).status ≡ ok) ↔ IsWell (reply_of target)
  unfolding check_service
  check_service_iff target =
      let url = health_url env target in
      let latency = (fetch url).1 in
      (
        reply-IsWell type_error target url latency (fetch url).0,
        well_reply type_error target url latency (fetch url).0,
      )

  All-IsWell :
      (ts : List ServiceTarget)
      → (all_of (λ s. is_status_ok s.status) (map (check_service type_error env fetch) ts) ≡ true)
        ↔ All (λ t. IsWell (reply_of t)) ts
  All-IsWell [] = (λ h. tt, λ h. refl)
  All-IsWell (t ∷ ts) =
      let (to, from) = check_service_iff t in
      let (rest, back) = All-IsWell ts in
      (λ h. (to (ground arith), rest (ground arith)), λ h. rw (from h.0) (back h.1))

  -- The gateway says that the services are well exactly if each of the four of them answers its check
  -- with a status of 2xx and an object whose status is "ok".
  services_health_iff :
      ((get_services_health type_error env fetch).0 ≡ ok) ↔ All (λ t. IsWell (reply_of t)) targets
  unfolding get_services_health
  services_health_iff =
      let (to, from) = All-IsWell targets in (λ h. to (ground arith), λ h. rw (from h) refl)

  -- When the gateway says that the services are well, and the issue service answered its check by
  -- what it found in its database, then Kafka was connected, and every event that waited for its
  -- publication had tries left and was less than five minutes old.
  pub services_health_ok_outbox :
      (now : ℕ) (db : Db) (is_connected : Bool) (timestamp : Text)
      → reply_of issue_target
        ≡ replied 200
            (value (obj (get_health (some (outbox_status now db)) is_connected timestamp)))
      → (get_services_health type_error env fetch).0 ≡ ok
      → (is_connected ≡ true) × All (IsMoving now) (keep is_unpublished db.outbox)
  services_health_ok_outbox now db is_connected timestamp e h =
      let (_, (_, ((status, fields, f, _, w), _))) = services_health_iff.0 h in
      let same = sym f ∙ e in
      let found : fields ≡ get_health (some (outbox_status now db)) is_connected timestamp =
        ground arith in
      get_health_ok now db is_connected timestamp (ap (get "status") (sym found) ∙ w)
