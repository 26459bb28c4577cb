-- ===== src/Repository/Outbox/Claims.antt =====
-- apps/issue-service-nest/src/infrastructure/postgres-issue.repository.ts: which events
-- `claimPendingEvents` takes, and which it leaves for later.
use jira_microservices_lab.Common.{
  ℕ, ◌+◌, ◌≡◌, ◌≤◌, ◌<◌, inl, inr, refl, ap, sym, ◌∙◌, subst, Text, text_eq_iff, contains, Bool,
  true, false, not, none, List, [], ◌∷◌, map, keep, take, All, sort_rows, arith, IsIn, any_of-false,
  All-keep, All-keep_of, All-take, All-sort_rows, found_by, All-map, Bool-cases,
}
use jira_microservices_lab.Repository.Db.{Db, OutboxRow}
use jira_microservices_lab.Repository.Table.{IsUnique}
use jira_microservices_lab.Repository.Outbox.{
  outbox_max_publish_attempts, outbox_claim_lease, ClaimedOutboxEvent, to_claimed, is_earlier,
  is_claimable, by_time, by_time_and_id, claimed_ids, is_chosen, lease, rewrite,
  claim_pending_events,
}

-- A waiting event that may be sent now: it is not published, its attempts are not used up, its time
-- has come, and no earlier event of its issue waits.
pub record IsDue (now : ℕ) (outbox : List OutboxRow) (r : OutboxRow) : Type 0 where
  pub stored : IsIn r outbox
  pub unpublished : r.published_at ≡ none
  pub attempts_left : r.publish_attempts < outbox_max_publish_attempts
  pub time_reached : r.next_attempt_at ≤ now
  pub in_order :
      (s : OutboxRow)
      → IsIn s outbox
      → s.aggregate_id ≡ r.aggregate_id
      → s.published_at ≡ none
      → r.aggregate_version ≤ s.aggregate_version

is_claimable-IsDue :
    (now : ℕ) (outbox : List OutboxRow) (r : OutboxRow)
    → IsIn r outbox
    → is_claimable now outbox r ≡ true
    → IsDue now outbox r
unfolding is_claimable
is_claimable-IsDue now outbox r m h = record {
  stored = m;
  unpublished = ground arith;
  attempts_left = ground arith;
  time_reached = ground arith;
  in_order = λ s k same waiting. ground (
    arith,
    any_of-false (is_earlier r) outbox s (ground arith) k,
    waiting,
    text_eq_iff s.aggregate_id r.aggregate_id,
  );
}

-- The rows that a claim selects.
selected :
    (limit : ℕ) (locked : Text → Bool) (now : ℕ) (outbox : List OutboxRow) (id : Text)
    → contains id (claimed_ids limit locked now outbox) ≡ true
    → (r : OutboxRow) × IsDue now outbox r × (r.event_id ≡ id)
unfolding claimed_ids
selected limit locked now outbox id h =
    found_by (IsDue now outbox) (λ r. r.event_id) id
      (take limit (
        keep (λ r. not (locked r.event_id))
          (sort_rows by_time (keep (is_claimable now outbox) outbox))))
      (All-take _ limit _ (
        All-keep_of _ _ _ (
          All-sort_rows _ by_time _
            (All-keep _ (is_claimable now outbox) outbox (is_claimable-IsDue now outbox)))))
      h

IsIn-contains :
    (rows : List OutboxRow) (r : OutboxRow)
    → IsIn r rows
    → contains r.event_id (map (λ e. e.event_id) rows) ≡ true
unfolding contains
IsIn-contains [] r m = absurd m
IsIn-contains (x ∷ rows) r (inl e) =
    ground (arith, ap (λ t. t.event_id) e, text_eq_iff r.event_id x.event_id)
IsIn-contains (x ∷ rows) r (inr m) = ground (arith, IsIn-contains rows r m)

-- The primary key of the events.
abbrev pub HasKey : List OutboxRow → Type 0
HasKey rows = IsUnique (map (λ e. e.event_id) rows)

same_row :
    (rows : List OutboxRow) (r s : OutboxRow)
    → HasKey rows
    → IsIn r rows
    → IsIn s rows
    → r.event_id ≡ s.event_id
    → r ≡ s
same_row [] r s u m k e = absurd m
same_row (x ∷ rows) r s u (inl m) (inl k) e = sym m ∙ k
same_row (x ∷ rows) r s u (inl m) (inr k) e = absurd (
    ground (
      arith,
      u.0,
      IsIn-contains rows s k,
      ap (λ t. contains t (map (λ e. e.event_id) rows)) (ap (λ t. t.event_id) m ∙ e),
    ))
same_row (x ∷ rows) r s u (inr m) (inl k) e = absurd (
    ground (
      arith,
      u.0,
      IsIn-contains rows r m,
      ap (λ t. contains t (map (λ e. e.event_id) rows)) (ap (λ t. t.event_id) k ∙ sym e),
    ))
same_row (x ∷ rows) r s u (inr m) (inr k) e = same_row rows r s u.1 m k e

-- If the identifiers of the events are distinct, every event that a claim returns stands in the
-- outbox and may be sent now: it is not published, its attempts are not used up, its time has
-- come, and no earlier event of its issue waits.
pub claim_pending_events-IsDue :
    (limit : ℕ) (locked : Text → Bool) (now : ℕ) (db : Db)
    → HasKey db.outbox
    → All
        (λ e. (r : OutboxRow) × IsDue now db.outbox r × (e ≡ to_claimed r))
        (claim_pending_events limit locked now db).0
unfolding claim_pending_events
claim_pending_events-IsDue limit locked now db u =
    All-map Due to_claimed (sort_rows by_time_and_id (map (lease now) chosen_rows)) (
      All-sort_rows _ by_time_and_id (map (lease now) chosen_rows) (
        All-map (λ r. Due (to_claimed r)) (lease now) chosen_rows
          (All-keep _ chosen db.outbox (λ x m c.
            let (r, due, e) = selected limit locked now db.outbox x.event_id c in
            (x, subst (IsDue now db.outbox) (same_row db.outbox r x u due.stored m e) due, refl)))))
  where
    Due : ClaimedOutboxEvent → Type 0
    Due e = (r : OutboxRow) × IsDue now db.outbox r × (e ≡ to_claimed r)

    chosen : OutboxRow → Bool
    chosen = is_chosen (claimed_ids limit locked now db.outbox)

    chosen_rows : List OutboxRow
    chosen_rows = keep chosen db.outbox

leased_row :
    (ids : List Text) (now : ℕ) (rows : List OutboxRow) (r : OutboxRow)
    → IsIn r (rewrite (is_chosen ids) (lease now) rows)
    → contains r.event_id ids ≡ true
    → r.next_attempt_at ≡ now + outbox_claim_lease
unfolding rewrite
leased_row ids now [] r m c = absurd m
leased_row ids now (x ∷ rows) r (inl e) c = elim (Bool-cases (contains x.event_id ids)) [
  | inl k ↦ ground (arith, k, ap (λ t. t.next_attempt_at) e)
  | inr k ↦ absurd (ground (arith, k, e))
]
leased_row ids now (x ∷ rows) r (inr m) c = leased_row ids now rows r m c

-- A claim that follows another, at any time before the lease of that one ends and with any limit
-- and locks, takes no event that that one has taken.
pub claims_disjoint :
    (limit limit' : ℕ) (locked locked' : Text → Bool) (now now' : ℕ) (db : Db) (id : Text)
    → contains id (claimed_ids limit locked now db.outbox) ≡ true
    → now' < now + outbox_claim_lease
    → contains id
        (claimed_ids limit' locked' now' (claim_pending_events limit locked now db).1.outbox)
      ≡ false
unfolding claim_pending_events
claims_disjoint limit limit' locked locked' now now' db id h early =
    elim (Bool-cases (contains id (claimed_ids limit' locked' now' outbox'))) [
      | inl e ↦
          let (r, due, same) = selected limit' locked' now' outbox' id e in
          absurd (
            omega (
              arith,
              early,
              due.time_reached,
              leased_row (claimed_ids limit locked now db.outbox) now db.outbox r due.stored
                  (ap (λ t. contains t (claimed_ids limit locked now db.outbox)) same ∙ h),
            ))
      | inr e ↦ e
    ]
  where
    outbox' : List OutboxRow
    outbox' = (claim_pending_events limit locked now db).1.outbox
