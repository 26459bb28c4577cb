-- ===== src/Repository/Outbox/Alone.antt =====
-- apps/issue-service-nest/src/infrastructure/postgres-issue.repository.ts: the events of one
-- issue in a claim.
use jira_microservices_lab.Common.{
  ℕ, suc, ◌≡◌, ◌<◌, inl, inr, refl, ap, sym, ◌∙◌, subst, Text, text_eq, text_eq_iff, Bool, true,
  false, List, [], ◌∷◌, ◌++◌, ◌==◌, any_of, up_to, arith, if◌then◌else◌, IsIn, All-IsIn, Bool-cases,
}
use jira_microservices_lab.Repository.Db.{Db, OutboxRow}
use jira_microservices_lab.Repository.Changes.{version_at}
use jira_microservices_lab.Repository.Invariant.{IsValid, versions_of}
use jira_microservices_lab.Repository.Outbox.Claims.{IsDue, HasKey, claim_pending_events-IsDue}
use jira_microservices_lab.Repository.Outbox.{ClaimedOutboxEvent, to_claimed, claim_pending_events}

abbrev has : ℕ → List ℕ → Bool
has n ns = any_of (λ m. m == n) ns

abbrev IsDistinct : List ℕ → Type 0
IsDistinct [] = Unit
IsDistinct (n ∷ ns) = (has n ns ≡ false) × IsDistinct ns

has-snoc :
    (n m : ℕ) (ns : List ℕ) → has n ns ≡ false → (m == n) ≡ false → has n (ns ++ m ∷ []) ≡ false
has-snoc n m [] h e = ground arith
has-snoc n m (k ∷ ns) h e = ground (arith, has-snoc n m ns)

IsDistinct-snoc :
    (m : ℕ) (ns : List ℕ) → IsDistinct ns → has m ns ≡ false → IsDistinct (ns ++ m ∷ [])
IsDistinct-snoc m [] d h = (refl, tt)
IsDistinct-snoc m (k ∷ ns) d h =
    (has-snoc k m ns d.0 (ground arith), IsDistinct-snoc m ns d.1 (ground arith))

up_to-bound : (n m : ℕ) → n < m → has m (up_to n) ≡ false
up_to-bound ℕ.zero m h = refl
up_to-bound (suc n) m h =
    has-snoc m (suc n) (up_to n) (up_to-bound n m (omega arith)) (ground arith)

up_to-IsDistinct : (n : ℕ) → IsDistinct (up_to n)
up_to-IsDistinct ℕ.zero = tt
up_to-IsDistinct (suc n) =
    IsDistinct-snoc (suc n) (up_to n) (up_to-IsDistinct n) (up_to-bound n (suc n) (omega arith))

versions_of-has :
    (id : Text) (rows : List OutboxRow) (r : OutboxRow)
    → IsIn r rows
    → r.aggregate_id ≡ id
    → has r.aggregate_version (versions_of id rows) ≡ true
unfolding versions_of
versions_of-has id [] r m e = absurd m
versions_of-has id (x ∷ rows) r (inl s) e =
    let same : text_eq x.aggregate_id id ≡ true =
      (text_eq_iff x.aggregate_id id).1 (ap (λ y. y.aggregate_id) s ∙ e) in
    ground (arith, same, ap (λ y. y.aggregate_version) s)
versions_of-has id (x ∷ rows) r (inr m) e = ground (arith, versions_of-has id rows r m e)

clash :
    (id : Text) (rows : List OutboxRow) (x s : OutboxRow)
    → IsDistinct (versions_of id (x ∷ rows))
    → x.aggregate_id ≡ id
    → IsIn s rows
    → s.aggregate_id ≡ id
    → x.aggregate_version ≡ s.aggregate_version
    → ⊥
unfolding versions_of
clash id rows x s d e k f v =
    ground (arith, (text_eq_iff x.aggregate_id id).1 e, versions_of-has id rows s k f, d, v)

tail_IsDistinct :
    (id : Text) (rows : List OutboxRow) (x : OutboxRow)
    → IsDistinct (versions_of id (x ∷ rows))
    → IsDistinct (versions_of id rows)
unfolding versions_of
tail_IsDistinct id rows x d = elim (Bool-cases (text_eq x.aggregate_id id)) [
  | inl e ↦
      (subst
        (λ b.
          IsDistinct (if b then x.aggregate_version ∷ versions_of id rows else versions_of id rows))
        e d).1
  | inr e ↦
      subst
        (λ b.
          IsDistinct (if b then x.aggregate_version ∷ versions_of id rows else versions_of id rows))
        e d
]

same_event :
    (id : Text) (rows : List OutboxRow) (r s : OutboxRow)
    → IsDistinct (versions_of id rows)
    → IsIn r rows
    → IsIn s rows
    → r.aggregate_id ≡ id
    → s.aggregate_id ≡ id
    → r.aggregate_version ≡ s.aggregate_version
    → r ≡ s
unfolding versions_of
same_event id [] r s d m k e f v = absurd m
same_event id (x ∷ rows) r s d (inl m) (inl k) e f v = sym m ∙ k
same_event id (x ∷ rows) r s d (inl m) (inr k) e f v =
    absurd (
      clash id rows x s d (ap (λ y. y.aggregate_id) m ∙ e) k f
        (ap (λ y. y.aggregate_version) m ∙ v))
same_event id (x ∷ rows) r s d (inr m) (inl k) e f v = absurd (
    clash id rows x r d (ap (λ y. y.aggregate_id) k ∙ f) m e
      (ap (λ y. y.aggregate_version) k ∙ sym v))
same_event id (x ∷ rows) r s d (inr m) (inr k) e f v =
    same_event id rows r s (tail_IsDistinct id rows x d) m k e f v

-- Two events of the same issue that may be sent now are the same event.
IsDue-alone :
    (now : ℕ) (db : Db) (r s : OutboxRow)
    → IsValid db
    → IsDue now db.outbox r
    → IsDue now db.outbox s
    → r.aggregate_id ≡ s.aggregate_id
    → r ≡ s
IsDue-alone now db r s v a b e =
    same_event r.aggregate_id db.outbox r s
      (subst IsDistinct (sym (v.event_per_version r.aggregate_id))
        (up_to-IsDistinct (version_at r.aggregate_id db)))
      a.stored b.stored refl (sym e)
      (omega
        (arith, a.in_order s b.stored (sym e) b.unpublished, b.in_order r a.stored e a.unpublished))

-- In a valid database, whose events have distinct identifiers, a claim returns at most one event of
-- each issue.
pub claim_pending_events-alone :
    (limit : ℕ) (locked : Text → Bool) (now : ℕ) (db : Db) (e f : ClaimedOutboxEvent)
    → IsValid db
    → HasKey db.outbox
    → IsIn e (claim_pending_events limit locked now db).0
    → IsIn f (claim_pending_events limit locked now db).0
    → e.aggregate_id ≡ f.aggregate_id
    → e ≡ f
unfolding to_claimed
claim_pending_events-alone limit locked now db e f v u m k same =
    let due = claim_pending_events-IsDue limit locked now db u in
    let (r, a, p) = All-IsIn _ (claim_pending_events limit locked now db).0 e due m in
    let (s, b, q) = All-IsIn _ (claim_pending_events limit locked now db).0 f due k in
    p
    ∙ ap to_claimed (
        IsDue-alone now db r s v a b
          (sym (ap (λ x. x.aggregate_id) p) ∙ same ∙ ap (λ x. x.aggregate_id) q))
    ∙ sym q
