-- ===== src/Publisher/Messages.antt =====
-- apps/issue-service-nest/src/infrastructure/outbox.publisher.ts: the messages that a poll sends, and
-- the brokers that it sends them to. The ISO text of a time and JSON are parameters. The trace context
-- goes to the tracing library and from there into the headers of the message, which are not modelled.
use jira_microservices_lab.Common.{
  ℕ, ◌≡◌, refl, Text, codes, Bool, Option, none, some, List, [], ◌∷◌, ◌==◌, map, keep, trim, IsIn,
  inl, inr, ap, sym, ◌∙◌, if◌then◌else◌,
}
use jira_microservices_lab.Json.{Fields, str, num, nat, obj, field, end}
use jira_microservices_lab.Gateway.Client.{JsonText}
use jira_microservices_lab.Repository.Db.{Db}
use jira_microservices_lab.Repository.Invariant.{IsValid}
use jira_microservices_lab.Repository.Outbox.{ClaimedOutboxEvent, claim_pending_events}
use jira_microservices_lab.Repository.Outbox.Claims.{HasKey}
use jira_microservices_lab.Repository.Outbox.Alone.{claim_pending_events-alone}

-- `split(',')`
abbrev add_first : ℕ → List Text → List Text
add_first c [] = (c ∷ []) ∷ []
add_first c (part ∷ parts) = (c ∷ part) ∷ parts

abbrev split_commas : Text → List Text
split_commas [] = [] ∷ []
split_commas (c ∷ s) = if c == b',' then [] ∷ split_commas s else add_first c (split_commas s)

abbrev is_filled : Text → Bool
is_filled [] = Bool.false
is_filled (c ∷ s) = Bool.true

-- The brokers, from KAFKA_BROKERS.
unfoldable pub brokers : Option Text → List Text
brokers none = keep is_filled (map trim (split_commas (codes "localhost:9092")))
brokers (some list) = keep is_filled (map trim (split_commas list))

pub record Message : Type 0 where
  pub topic : Text
  pub key : Text
  pub value : Text

-- `process.env.ISSUE_EVENTS_TOPIC ?? 'issue.events.v1'`
abbrev pub topic_of : Option Text → Text
topic_of none = codes "issue.events.v1"
topic_of (some topic) = topic

module _ (iso : ℕ → Text) (json : JsonText) (topic : Option Text) where
  -- `{ ...event, schemaVersion: 1 }`, without the trace context.
  abbrev pub envelope : ClaimedOutboxEvent → Fields
  envelope e = field "eventId" (str e.event_id) (
      field "eventType" (str e.event_type) (
        field "aggregateId" (str e.aggregate_id) (
          field "aggregateVersion" (num (nat e.aggregate_version)) (
            field "projectId" (str e.project_id) (
              field "actorUserId" (str e.actor_user_id) (
                field "occurredAt" (str (iso e.occurred_at))
                  (field "payload" e.payload (field "schemaVersion" (num (nat 1)) end))))))))

  unfoldable pub message_for : ClaimedOutboxEvent → Message
  message_for e = record {
    topic = topic_of topic;
    key = e.aggregate_id;
    value = json.stringify (obj (envelope e));
  }

  -- The messages of a poll that claims its events at a time.
  abbrev pub messages : ℕ → (Text → Bool) → ℕ → Db → List Message
  messages limit locked now db = map message_for (claim_pending_events limit locked now db).0

  of_event :
      (events : List ClaimedOutboxEvent) (m : Message)
      → IsIn m (map message_for events)
      → (e : ClaimedOutboxEvent) × IsIn e events × (message_for e ≡ m)
  of_event [] m h = absurd h
  of_event (e ∷ events) m (inl p) = (e, inl refl, p)
  of_event (e ∷ events) m (inr h) = let (f, there, p) = of_event events m h in (f, inr there, p)

  -- Two messages of one poll with the same key are the same message, so that sending them at the same
  -- time cannot change the order of the events of an issue: in a valid database, whose events have
  -- distinct identifiers.
  pub messages_alone :
      (limit : ℕ) (locked : Text → Bool) (now : ℕ) (db : Db) (m n : Message)
      → IsValid db
      → HasKey db.outbox
      → IsIn m (messages limit locked now db)
      → IsIn n (messages limit locked now db)
      → m.key ≡ n.key
      → m ≡ n
  unfolding message_for
  messages_alone limit locked now db m n v u a b same =
      let events = (claim_pending_events limit locked now db).0 in
      let (e, there, p) = of_event events m a in
      let (f, also, q) = of_event events n b in
      let ids : e.aggregate_id ≡ f.aggregate_id =
        ap (λ (x : Message). x.key) p ∙ same ∙ sym (ap (λ (x : Message). x.key) q) in
      sym p
      ∙ ap message_for (claim_pending_events-alone limit locked now db e f v u there also ids)
      ∙ q
