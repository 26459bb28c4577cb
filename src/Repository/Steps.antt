-- ===== src/Repository/Steps.antt =====
-- apps/issue-service-nest/src/infrastructure/postgres-issue.repository.ts: histories, that is,
-- any sequences of operations, each one transaction.
use jira_microservices_lab.Common.{
  ℕ, ◌≡◌, refl, ap, sym, subst, Text, text_eq, Bool, Option, List, [], ◌∷◌, arith,
}
use jira_microservices_lab.Domain.Errors.{Result, ok, err}
use jira_microservices_lab.Domain.Issue.{Issue, ValidatedIssueTransition}
use jira_microservices_lab.Repository.Db.{Db, OutboxRow, Env, Tx, transaction}
use jira_microservices_lab.Repository.Writes.{
  NewIssueData, UpdateIssueData, create_work, create_issue, update_work, update_issue, assign_work,
  assign_issue, transition_work, transition_issue, comment_work, add_comment,
}
use jira_microservices_lab.Repository.Outbox.{
  rewrite, claimed_ids, is_chosen, lease, set_published, has_event_id, failed_once,
  claim_pending_events, mark_events_published, record_publish_failure,
}
use jira_microservices_lab.Repository.Changes.{Change}
use jira_microservices_lab.Repository.Operations.{
  transaction_failed, update_issue_ok, assign_issue_ok, transition_issue_ok, add_comment_ok,
}
use jira_microservices_lab.Repository.Creation.{create_issue-Change}
use jira_microservices_lab.Repository.Invariant.{
  versions_of, IsValid, Change-IsValid, outbox-IsValid,
}

-- A call of the repository, with what it draws from outside.
pub data Request : Type 0 where
  create : Env → NewIssueData → Request
  update : Env → Issue → ℕ → UpdateIssueData → Text → Request
  assign : Env → Issue → ℕ → Option Text → Text → Request
  transition : Env → Issue → ℕ → ValidatedIssueTransition → Text → Request
  comment : Env → Issue → Text → Text → Request
  claim : ℕ → (Text → Bool) → ℕ → Request
  published : List Text → ℕ → Request
  failed : Text → Text → ℕ → Request

unfoldable pub step : Request → Db → Db
step (create env given) db = (create_issue env given db).1
step (update env issue v given actor) db = (update_issue env issue v given actor db).1
step (assign env issue v assignee actor) db = (assign_issue env issue v assignee actor db).1
step (transition env issue v t actor) db = (transition_issue env issue v t actor db).1
step (comment env issue author body) db = (add_comment env issue author body db).1
step (claim limit locked now) db = (claim_pending_events limit locked now db).1
step (published ids now) db = mark_events_published ids now db
step (failed id error now) db = (record_publish_failure id error now db).1

unfoldable pub run : List Request → Db → Db
run [] db = db
run (r ∷ rs) db = run rs (step r db)

-- What a step does to the issues, their events and their history: nothing, a change, or a rewrite
-- of the outbox that keeps each event's aggregate and version.
pub data Effect (db db' : Db) : Type 0 where
  same : db' ≡ db → Effect db db'
  changed : (row : Issue) → Change db db' row → Effect db db'
  outboxed :
      (outbox : List OutboxRow)
      → db' ≡ record db { outbox = outbox }
      → ((id : Text) → versions_of id outbox ≡ versions_of id db.outbox)
      → Effect db db'

rewrite-versions_of :
    (p : OutboxRow → Bool) (f : OutboxRow → OutboxRow)
    → ((r : OutboxRow)
        → ((f r).aggregate_id ≡ r.aggregate_id) × ((f r).aggregate_version ≡ r.aggregate_version))
    → (rows : List OutboxRow) (id : Text) → versions_of id (rewrite p f rows) ≡ versions_of id rows
unfolding rewrite versions_of
rewrite-versions_of p f h [] id = refl
rewrite-versions_of p f h (r ∷ rows) id =
    ground (arith, h r, rewrite-versions_of p f h rows id, ap (λ t. text_eq t id) (h r).0)

-- A transaction whose successes are changes has an effect.
Effect-transaction :
    {A : Type 0} (work : Tx A) (db : Db)
    → ((a : A) (db' : Db) → transaction work db ≡ (ok a, db') → (row : Issue) × Change db db' row)
    → Effect db (transaction work db).1
Effect-transaction {A} work db h = split (transaction work db) refl
  where
    split : (r : Result A × Db) → transaction work db ≡ r → Effect db (transaction work db).1
    split (ok a, db') e =
        let (row, c) = h a db' e in
        changed row (subst (λ d. Change db d row) (sym (ap (λ t. t.1) e)) c)
    split (err x, db') e = same (transaction_failed work db x (ap (λ t. t.0) e))

pub step-Effect : (r : Request) (db : Db) → IsValid db → Effect db (step r db)
unfolding step create_issue update_issue assign_issue transition_issue add_comment
    claim_pending_events mark_events_published record_publish_failure
step-Effect (create env given) db v =
    Effect-transaction (create_work env given) db
      λ row db' e. (row, (create_issue-Change env given db row db' v.unique e).3)
step-Effect (update env issue n given actor) db v =
    Effect-transaction (update_work env issue n given actor) db
      λ row db' e. (row, (update_issue_ok env issue n given actor db row db' v.unique e).4)
step-Effect (assign env issue n assignee actor) db v =
    Effect-transaction (assign_work env issue n assignee actor) db
      λ row db' e. (row, (assign_issue_ok env issue n assignee actor db row db' v.unique e).4)
step-Effect (transition env issue n t actor) db v =
    Effect-transaction (transition_work env issue n t actor) db
      λ row db' e. (row, (transition_issue_ok env issue n t actor db row db' v.unique e).4)
step-Effect (comment env issue author body) db v =
    Effect-transaction (comment_work env issue author body) db λ c db' e.
      let (row, w, _, _) = add_comment_ok env issue author body db c db' v.unique e in (row, w.4)
step-Effect (claim limit locked now) db v = outboxed _ refl (
    rewrite-versions_of (is_chosen (claimed_ids limit locked now db.outbox)) (lease now)
      (λ r. (refl, refl)) db.outbox)
step-Effect (published ids now) db v =
    outboxed _ refl
      (rewrite-versions_of (is_chosen ids) (set_published now) (λ r. (refl, refl)) db.outbox)
step-Effect (failed id error now) db v =
    outboxed _ refl
      (rewrite-versions_of (has_event_id id) (failed_once error now) (λ r. (refl, refl)) db.outbox)

-- Every operation keeps the invariant, whether it succeeds or fails.
pub step-IsValid : (r : Request) (db : Db) → IsValid db → IsValid (step r db)
step-IsValid r db v = from_effect (step-Effect r db v)
  where
    from_effect : Effect db (step r db) → IsValid (step r db)
    from_effect (same e) = subst IsValid (sym e) v
    from_effect (changed row c) = Change-IsValid db (step r db) row v c
    from_effect (outboxed outbox e h) = subst IsValid (sym e) (outbox-IsValid db outbox h v)

-- After every history of operations on issues and on the outbox, whether they succeed or fail, each
-- issue stands once, and for every identifier the events have the versions 1, 2, … up to the version
-- of the issue, in this order, and there are as many history rows, if this was so before.
pub run-IsValid : (rs : List Request) (db : Db) → IsValid db → IsValid (run rs db)
unfolding run
run-IsValid [] db v = v
run-IsValid (r ∷ rs) db v = run-IsValid rs (step r db) (step-IsValid r db v)
