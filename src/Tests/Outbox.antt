-- ===== src/Tests/Outbox.antt =====
-- The outbox after the first issue was created: its event waits.
use jira_microservices_lab.Common.{
  ◌≡◌, refl, ℕ, Text, codes, contains, Bool, true, false, none, some, All, arith,
}
use jira_microservices_lab.Repository.Db.{OutboxRow}
use jira_microservices_lab.Repository.Outbox.{to_claimed, claimed_ids, claim_pending_events}
use jira_microservices_lab.Repository.Outbox.Claims.{
  IsDue, HasKey, claim_pending_events-IsDue, claims_disjoint,
}
use jira_microservices_lab.Publisher.{Outside, Publisher, publish_batch}
use jira_microservices_lab.Publisher.Delivery.{IsHonest, publish_batch-IsHonest}
use jira_microservices_lab.Common.{◌≢◌, ◌↔◌, IsIn, List, [], Option, none, some, ◌∷◌}
use jira_microservices_lab.Common.{inl}
use jira_microservices_lab.Repository.Outbox.{ClaimedOutboxEvent}
use jira_microservices_lab.Gateway.Client.{JsonText}
use jira_microservices_lab.Publisher.Messages.{Message, message_for, messages, messages_alone}
use jira_microservices_lab.Repository.Statements.{event_row}
use jira_microservices_lab.Repository.Payloads.{created_payload}
use jira_microservices_lab.Tests.Data.{first_env, first_issue, one_issue-IsValid}
use jira_microservices_lab.Repository.Table.{IsUnique}
use jira_microservices_lab.Repository.Recipients.{recipients}
use jira_microservices_lab.Repository.Recipients.Addressed.{recipients_iff}
use jira_microservices_lab.Tests.Data.{alice, bob}
use jira_microservices_lab.Tests.Running.{code}
use jira_microservices_lab.Tests.Data.{one_issue}

abbrev unlocked : Text → Bool
unlocked id = false

one_key : HasKey one_issue.outbox
unfolding code
one_key = (refl, tt)

claim_pending_events-IsDue_example :
    All
      (λ e. (r : OutboxRow) × IsDue 100 one_issue.outbox r × (e ≡ to_claimed r))
      (claim_pending_events 50 unlocked 100 one_issue).0
claim_pending_events-IsDue_example = claim_pending_events-IsDue 50 unlocked 100 one_issue one_key

claimed_first : contains (codes "e1") (claimed_ids 50 unlocked 100 one_issue.outbox) ≡ true
unfolding code
claimed_first = refl

claims_disjoint_example :
    contains
      (codes "e1")
      (claimed_ids 50 unlocked 200 (claim_pending_events 50 unlocked 100 one_issue).1.outbox)
    ≡ false
claims_disjoint_example =
    claims_disjoint 50 50 unlocked unlocked 100 200 one_issue (codes "e1") claimed_first
      (omega arith)

-- The broker accepts every event, and the database fails when the events are to be marked.
abbrev outside : Outside
outside = record {
  connect_error = none;
  send_error = λ e. none;
  claim_error = none;
  mark_error = some (codes "timeout");
  record_error = λ id. none;
  locked = unlocked;
  claim_now = 100;
  mark_now = 101;
  record_now = 102;
}

abbrev idle : Publisher
idle = record { running = false; connected = false }

publish_batch-IsHonest_example : IsHonest outside one_issue (publish_batch outside idle one_issue)
publish_batch-IsHonest_example = publish_batch-IsHonest outside idle one_issue

-- The reporter acts; the assignee stands twice.
abbrev users : List (Option Text)
users = some alice ∷ some bob ∷ none ∷ some bob ∷ []

recipients_iff_example :
    IsUnique (recipients users alice)
    × ((u : Text)
        → (contains u (recipients users alice) ≡ true)
          ↔ ((u ≢ []) × IsIn (some u) users × (u ≢ alice)))
recipients_iff_example = recipients_iff users alice

abbrev first_event : ClaimedOutboxEvent
first_event =
    to_claimed
      (event_row first_env first_issue alice "issue.created" (created_payload first_issue alice))

first_claimed : IsIn first_event (claim_pending_events 50 unlocked 100 one_issue).0
unfolding code
first_claimed = inl refl

abbrev iso : ℕ → Text
iso t = codes "2026-01-01T00:00:00.000Z"

abbrev json : JsonText
json = record { stringify = λ v. codes "j"; parse = λ t. none }

abbrev first_message : Message
first_message = message_for iso json none first_event

first_sent : IsIn first_message (messages iso json none 50 unlocked 100 one_issue)
unfolding code
first_sent = inl refl

messages_alone_example : first_message ≡ first_message
messages_alone_example =
    messages_alone iso json none 50 unlocked 100 one_issue first_message first_message
      one_issue-IsValid one_key first_sent first_sent refl
