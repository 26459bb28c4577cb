-- ===== src/Publisher/Delivery.antt =====
-- apps/issue-service-nest/src/infrastructure/outbox.publisher.ts: what a poll marks as
-- published, against what the broker has accepted.
use jira_microservices_lab.Common.{
  ℕ, ◌≡◌, ◌⊎◌, inl, inr, refl, ap, sym, ◌∙◌, Text, contains, Bool, true, false, Option, none, some,
  List, [], ◌∷◌, map, keep, arith, if◌then◌else◌, IsIn, Bool-cases, Option-cases, is_some, not,
  ◌&&◌, if_cases, All, All-keep,
}
use jira_microservices_lab.Repository.Db.{Db, OutboxRow}
use jira_microservices_lab.Repository.Outbox.{
  ClaimedOutboxEvent, claimed_ids, is_chosen, lease, set_published, has_event_id, failed_once,
  rewrite, claim_pending_events, mark_events_published, record_publish_failure,
}
use jira_microservices_lab.Publisher.{
  Outside, Publisher, Poll, id_of, ended, is_accepted, first_rejection, record_failures, mark,
  send_all, send_claimed, poll, publish_batch,
}

-- A row that is published in `after` was published already in `before`, or its event is among those
-- with the identifiers `sent`.
abbrev pub OnlySent : List Text → List OutboxRow → List OutboxRow → Type 0
OnlySent sent before after =
    (r : OutboxRow) (t : ℕ)
    → IsIn r after
    → r.published_at ≡ some t
    → ((s : OutboxRow) × IsIn s before × (s.event_id ≡ r.event_id) × (s.published_at ≡ some t))
      ⊎ (contains r.event_id sent ≡ true)

OnlySent-same : (sent : List Text) (rows : List OutboxRow) → OnlySent sent rows rows
OnlySent-same sent rows r t m p = inl (r, m, refl, p)

OnlySent-trans :
    (sent : List Text) (a b c : List OutboxRow)
    → OnlySent sent a b
    → OnlySent sent b c
    → OnlySent sent a c
OnlySent-trans sent a b c h k r t m p = elim (k r t m p) [
  | inl (s, n, e, q) ↦ elim (h s t n q) [
    | inl (u, o, f, v) ↦ inl (u, o, f ∙ e, v)
    | inr w ↦ inr (ap (λ x. contains x sent) (sym e) ∙ w)
  ]
  | inr w ↦ inr w
]

-- A row of a rewritten table comes from a row of the table.
rewrite-IsIn :
    (p : OutboxRow → Bool) (f : OutboxRow → OutboxRow) (rows : List OutboxRow) (r : OutboxRow)
    → IsIn r (rewrite p f rows)
    → (x : OutboxRow) × IsIn x rows × ((if p x then f x else x) ≡ r)
unfolding rewrite
rewrite-IsIn p f [] r m = absurd m
rewrite-IsIn p f (x ∷ rows) r (inl e) = (x, inl refl, e)
rewrite-IsIn p f (x ∷ rows) r (inr m) = let (y, n, e) = rewrite-IsIn p f rows r m in (y, inr n, e)

OnlySent-rewrite :
    (sent : List Text) (p : OutboxRow → Bool) (f : OutboxRow → OutboxRow) (rows : List OutboxRow)
    → ((x : OutboxRow) → ((f x).event_id ≡ x.event_id) × ((f x).published_at ≡ x.published_at))
    → OnlySent sent rows (rewrite p f rows)
OnlySent-rewrite sent p f rows h r t m q =
    let (x, n, e) = rewrite-IsIn p f rows r m in
    elim (Bool-cases (p x)) [
      | inl b ↦
          let same : f x ≡ r = ground (arith, b, e) in
          inl (
            x,
            n,
            sym (h x).0 ∙ ap (λ y. y.event_id) same,
            sym (h x).1 ∙ ap (λ y. y.published_at) same ∙ q,
          )
      | inr b ↦
          let same : x ≡ r = ground (arith, b, e) in
          inl (x, n, ap (λ y. y.event_id) same, ap (λ y. y.published_at) same ∙ q)
    ]

OnlySent-marked :
    (sent : List Text) (now : ℕ) (rows : List OutboxRow)
    → OnlySent sent rows (rewrite (is_chosen sent) (set_published now) rows)
OnlySent-marked sent now rows r t m q =
    let (x, n, e) = rewrite-IsIn (is_chosen sent) (set_published now) rows r m in
    elim (Bool-cases (contains x.event_id sent)) [
      | inl b ↦
          let same : set_published now x ≡ r = ground (arith, b, e) in
          inr (ap (λ y. contains y sent) (sym (ap (λ y. y.event_id) same)) ∙ b)
      | inr b ↦
          let same : x ≡ r = ground (arith, b, e) in
          inl (x, n, ap (λ y. y.event_id) same, ap (λ y. y.published_at) same ∙ q)
    ]

OnlySent-record_failures :
    (outside : Outside) (sent : List Text) (error : Text) (ids : List Text) (db : Db)
    → OnlySent sent db.outbox (record_failures outside error ids db).1.outbox
unfolding record_failures
OnlySent-record_failures outside sent error [] db = OnlySent-same sent db.outbox
OnlySent-record_failures outside sent error (id ∷ ids) db =
    let now = outside.record_now in
    let db' = (record_publish_failure id error now db).1 in
    let rest = OnlySent-record_failures outside sent error ids db' in
    if_cases (λ (x : Bool × Db). OnlySent sent db.outbox x.1.outbox)
      (is_some (outside.record_error id)) (false, db) (record_failures outside error ids db')
      (λ e. OnlySent-same sent db.outbox)
      (λ e.
        OnlySent-trans sent db.outbox db'.outbox _
          (OnlySent-rewrite sent (has_event_id id) (failed_once error now) db.outbox
            (λ x. (refl, refl)))
          rest)

-- What a poll has done: the events that it delivered were all accepted by the broker, and it has
-- marked no others as published.
abbrev pub IsHonest : Outside → Db → Poll → Type 0
IsHonest outside db p =
    All (λ e. outside.send_error e ≡ none) p.delivered
    × OnlySent (map id_of p.delivered) db.outbox p.db.outbox

IsHonest-mark :
    (outside : Outside) (events : List ClaimedOutboxEvent) (db : Db)
    → All (λ e. outside.send_error e ≡ none) events
    → IsHonest outside db (mark outside events db)
unfolding mark
IsHonest-mark outside events db h = split outside.mark_error
  where
    split :
        (o : Option Text)
        → IsHonest outside db (elim o [
          | none ↦ ended true (mark_events_published (map id_of events) outside.mark_now db) events
          | some error ↦
              let (recorded, db') = record_failures outside error (map id_of events) db in
              ended recorded db' events
        ])
    split none = (h, OnlySent-marked (map id_of events) outside.mark_now db.outbox)
    split (some error) =
        (h, OnlySent-record_failures outside (map id_of events) error (map id_of events) db)

no_rejection :
    (outside : Outside) (events : List ClaimedOutboxEvent)
    → first_rejection outside events ≡ none
    → All (λ e. outside.send_error e ≡ none) events
unfolding first_rejection
no_rejection outside [] h = tt
no_rejection outside (e ∷ events) h = elim (Option-cases (outside.send_error e)) [
  | inl n ↦ (n, no_rejection outside events (ground (arith, n, h)))
  | inr (reason, n) ↦ absurd (ground (arith, n, h))
]

IsHonest-send_all :
    (outside : Outside) (events : List ClaimedOutboxEvent) (db : Db)
    → IsHonest outside db (send_all outside events db)
unfolding send_all
IsHonest-send_all outside events db = split (first_rejection outside events) refl
  where
    split :
        (o : Option Text)
        → first_rejection outside events ≡ o
        → IsHonest outside db (elim o [
          | none ↦ mark outside events db
          | some reason ↦
              ended false
                (record_failures outside reason (map id_of events) db).1
                (keep (is_accepted outside) events)
        ])
    split none e = IsHonest-mark outside events db (no_rejection outside events e)
    split (some reason) e = (
      All-keep _ (is_accepted outside) events (λ x m a. ground (arith, a)),
      OnlySent-record_failures outside (map id_of (keep (is_accepted outside) events)) reason
          (map id_of events) db,
    )

IsHonest-send_claimed :
    (outside : Outside) (events : List ClaimedOutboxEvent) (db : Db)
    → IsHonest outside db (send_claimed outside events db)
unfolding send_claimed
IsHonest-send_claimed outside [] db = (tt, OnlySent-same [] db.outbox)
IsHonest-send_claimed outside (e ∷ events) db = IsHonest-send_all outside (e ∷ events) db

IsHonest-poll :
    (outside : Outside) (connected : Bool) (db : Db)
    → IsHonest outside db (poll outside connected db)
unfolding poll
IsHonest-poll outside connected db =
    let nothing : IsHonest outside db (ended false db []) = (tt, OnlySent-same [] db.outbox) in
    let (events, db') = claim_pending_events 50 outside.locked outside.claim_now db in
    let sent = IsHonest-send_claimed outside events db' in
    if_cases (IsHonest outside db) (not connected && is_some outside.connect_error)
      (ended false db []) _ (λ e. nothing)
      (λ e.
        if_cases (IsHonest outside db) (is_some outside.claim_error) (ended false db []) _
          (λ k. nothing)
          (λ k. (
            sent.0,
            OnlySent-trans (map id_of (send_claimed outside events db').delivered) db.outbox
                db'.outbox _
                (OnlySent-rewrite _
                  (is_chosen (claimed_ids 50 outside.locked outside.claim_now db.outbox))
                  (lease outside.claim_now) db.outbox (λ x. (refl, refl)))
                sent.1,
          )))

-- A poll marks an event as published only if the broker has accepted it in this poll: whatever
-- fails outside, the events that it reports as delivered were accepted, and a row that is published
-- after it was published before or is the row of such an event.
pub publish_batch-IsHonest :
    (outside : Outside) (publisher : Publisher) (db : Db)
    → IsHonest outside db (publish_batch outside publisher db)
unfolding publish_batch
publish_batch-IsHonest outside publisher db =
    if_cases (IsHonest outside db) publisher.running _ (poll outside publisher.connected db)
      (λ e. (tt, OnlySent-same [] db.outbox)) (λ e. IsHonest-poll outside publisher.connected db)
