-- ===== src/Publisher.antt =====
-- apps/issue-service-nest/src/infrastructure/outbox.publisher.ts: one poll of the outbox, which
-- sends the events that it claims to the broker. Log lines are left out.
pub mod Delivery
pub mod Messages
use jira_microservices_lab.Common.{
  ℕ, ◌+◌, Text, Option, Bool, true, false, none, some, List, [], ◌∷◌, ◌&&◌, map, keep, is_some, not,
  if◌then◌else◌,
}
use jira_microservices_lab.Repository.Db.{Db}
use jira_microservices_lab.Repository.Outbox.{
  ClaimedOutboxEvent, claim_pending_events, mark_events_published, record_publish_failure,
}

-- What the poll finds outside: whether the broker can be reached, the reason for which it rejects an
-- event, the error of each call of the database, the rows that other transactions have locked, and
-- the time of the statements. An error is the text that `describe` makes of it.
pub record Outside : Type 0 where
  pub connect_error : Option Text
  pub send_error : ClaimedOutboxEvent → Option Text
  pub claim_error : Option Text
  pub mark_error : Option Text
  pub record_error : Text → Option Text
  pub locked : Text → Bool
  pub claim_now : ℕ
  pub mark_now : ℕ
  pub record_now : ℕ

-- The fields of the publisher that change.
pub record Publisher : Type 0 where
  pub running : Bool
  pub connected : Bool

-- A poll ends with the fields, the tables, and the events that the broker has accepted in it.
pub record Poll : Type 0 where
  pub publisher : Publisher
  pub db : Db
  pub delivered : List ClaimedOutboxEvent

abbrev pub id_of : ClaimedOutboxEvent → Text
id_of e = e.event_id

abbrev pub ended : Bool → Db → List ClaimedOutboxEvent → Poll
ended connected db delivered = record {
  publisher = record { running = false; connected = connected };
  db = db;
  delivered = delivered;
}

-- claimPendingEvents(50)
abbrev batch_limit : ℕ
batch_limit = 50

module _ (outside : Outside) where
  abbrev pub is_accepted : ClaimedOutboxEvent → Bool
  is_accepted e = not (is_some (outside.send_error e))

  -- `sends.find(…rejected)`, its reason.
  unfoldable pub first_rejection : List ClaimedOutboxEvent → Option Text
  first_rejection [] = none
  first_rejection (e ∷ events) =
      let rest = first_rejection events in
      elim (outside.send_error e) [ none ↦ rest | some reason ↦ some reason ]

  -- The loops of `recordFailure`: they end at the first error of the database. The Boolean tells
  -- whether all were recorded.
  unfoldable pub record_failures : Text → List Text → Db → Bool × Db
  unfolding record_publish_failure
  record_failures error [] db = (true, db)
  record_failures error (id ∷ ids) db =
      let rest =
        record_failures error ids (record_publish_failure id error outside.record_now db).1 in
      if is_some (outside.record_error id) then (false, db) else rest

  -- The events were accepted: mark them as published, or record the error of that.
  unfoldable pub mark : List ClaimedOutboxEvent → Db → Poll
  unfolding record_failures mark_events_published
  mark events db = elim outside.mark_error [
    | none ↦ ended true (mark_events_published (map id_of events) outside.mark_now db) events
    | some error ↦
        let (recorded, db') = record_failures error (map id_of events) db in
        ended recorded db' events
  ]

  unfoldable pub send_all : List ClaimedOutboxEvent → Db → Poll
  unfolding first_rejection record_failures mark
  send_all events db = elim (first_rejection events) [
    | none ↦ mark events db
    | some reason ↦
        ended false (record_failures reason (map id_of events) db).1 (keep is_accepted events)
  ]

  -- `if (events.length === 0) return`
  unfoldable pub send_claimed : List ClaimedOutboxEvent → Db → Poll
  unfolding send_all
  send_claimed [] db = ended true db []
  send_claimed (e ∷ events) db = send_all (e ∷ events) db

  unfoldable pub poll : Bool → Db → Poll
  unfolding send_claimed claim_pending_events
  poll connected db =
      let (events, db') = claim_pending_events batch_limit outside.locked outside.claim_now db in
      if not connected && is_some outside.connect_error
      then ended false db []
      else if is_some outside.claim_error
      then ended false db []
      else send_claimed events db'

  unfoldable pub publish_batch : Publisher → Db → Poll
  unfolding poll
  publish_batch publisher db =
      if publisher.running
      then record { publisher = publisher; db = db; delivered = [] }
      else poll publisher.connected db
