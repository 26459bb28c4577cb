-- ===== src/Repository/Operations.antt =====
-- apps/issue-service-nest/src/infrastructure/postgres-issue.repository.ts: what the operations
-- on an existing issue have done when they succeed.
use jira_microservices_lab.Common.{
  ℕ, ◌≡◌, refl, Text, text_eq, Option, some, [], ◌∷◌, ◌++◌, arith, ap, sym, ◌∙◌, subst,
}
use Prim.Native.String.{String}
use jira_microservices_lab.Json.{Value, null}
use jira_microservices_lab.Domain.Errors.{Error, ok, err}
use jira_microservices_lab.Domain.Issue.{Issue, IssueComment, ValidatedIssueTransition}
use jira_microservices_lab.Repository.Db.{Db, Env, Tx, pure, ◌>>=◌, ◌>>◌, transaction}
use jira_microservices_lab.Repository.Table.{find_row, find_row-id, issue_ids, IsUnique}
use jira_microservices_lab.Repository.Statements.{
  insert_history, history_row, insert_event, event_row, insert_comment, next_version,
  update_with_version,
}
use jira_microservices_lab.Repository.Payloads.{
  details_value, updated_payload, assignee_value, assigned_payload, status_object,
  transitioned_payload, comment_value, commented_payload,
}
use jira_microservices_lab.Repository.Writes.{
  UpdateIssueData, set_details, update_work, update_issue, set_assignee, assign_work, assign_issue,
  set_status, transition_work, transition_issue, set_nothing, comment_row, comment_work,
  add_comment,
}
use jira_microservices_lab.Repository.Changes.{
  Change, and_then-eq-ok, record_ok, Updated, update_with_version_ok,
}

-- What a transaction returned when it returned a value.
pub transaction_ok :
    {A : Type 0} (work : Tx A) (db : Db) (a : A) (db' : Db)
    → transaction work db ≡ (ok a, db')
    → work db ≡ ok (a, db')
unfolding transaction
transaction_ok work db a db' h = ground arith

-- A transaction that fails leaves the database as it was.
pub transaction_failed :
    {A : Type 0} (work : Tx A) (db : Db) (e : Error)
    → (transaction work db).0 ≡ err e
    → (transaction work db).1 ≡ db
unfolding transaction
transaction_failed work db e h = ground arith

-- An UPDATE of one row, followed by the two inserts, is a change.
Updated-Change :
    (env : Env) (id : Text) (expected : ℕ) (setters : Issue → Issue)
    (same_id : (r : Issue) → (setters r).id ≡ r.id) (db mid : Db) (row : Issue) (actor : Text)
    (action event_type : String) (from to payload : Value) (db' : Db)
    → IsUnique (issue_ids db.issues)
    → Updated db mid id expected (next_version env.db_now setters) row
    → db'.issues ≡ mid.issues
    → db'.history ≡ mid.history ++ history_row env row actor action from to ∷ []
    → db'.outbox ≡ mid.outbox ++ event_row env row actor event_type payload ∷ []
    → Change db db' row
unfolding next_version history_row event_row
Updated-Change env id expected setters same_id db mid row actor action event_type from to payload
      db' u up i h o =
    record {
      rows = λ j. ground (arith, up.updated_rows j, ap (λ t. text_eq t j) row_id);
      counted = ground (arith, ap (λ t. find_row t db.issues) row_id);
      unique = subst (λ rs. IsUnique rs) (sym (ap issue_ids i ∙ up.same_ids)) u;
      event = event_row env row actor event_type payload;
      event_added =
          o ∙ ap (λ d. d.outbox ++ event_row env row actor event_type payload ∷ []) up.rest;
      event_of = refl;
      event_version = refl;
      event_pending = refl;
      event_untried = refl;
      change = history_row env row actor action from to;
      change_added =
          h ∙ ap (λ d. d.history ++ history_row env row actor action from to ∷ []) up.rest;
      change_of = refl;
    }
  where
    row_id : row.id ≡ id
    row_id =
        ap (λ r. r.id) up.returned ∙ same_id up.before ∙ find_row-id id db.issues up.before up.found

-- The operation found the issue at the expected version, rewrote it by `f`, and made no other change.
abbrev pub Written : Db → Db → Text → ℕ → (Issue → Issue) → Issue → Type 0
Written db db' id expected f row =
    (before : Issue) × (find_row id db.issues ≡ some before)
    × (before.version ≡ expected)
    × (row ≡ f before)
    × Change db db' row

Updated-Written :
    (env : Env) (id : Text) (expected : ℕ) (setters : Issue → Issue)
    (same_id : (r : Issue) → (setters r).id ≡ r.id) (db mid : Db) (updated : Issue) (actor : Text)
    (action event_type : String) (from to payload : Value) (row : Issue) (db' : Db)
    → IsUnique (issue_ids db.issues)
    → Updated db mid id expected (next_version env.db_now setters) updated
    → (insert_history env updated actor action from to
          >> (insert_event env updated actor event_type payload >> pure updated))
        mid
      ≡ ok (row, db')
    → Written db db' id expected (next_version env.db_now setters) row
Updated-Written env id expected setters same_id db mid updated actor action event_type from to
      payload row db' u up k =
    let (same, after) =
      record_ok env updated actor action event_type from to payload updated mid row db' k in
    let change =
      Updated-Change env id expected setters same_id db mid updated actor action event_type from to
        payload db' u up (ap (λ d. d.issues) after) (ap (λ d. d.history) after)
        (ap (λ d. d.outbox) after) in
    (
      up.before,
      up.found,
      up.expected_version,
      same ∙ up.returned,
      subst (λ r. Change db db' r) (sym same) change,
    )

-- The shape of `updateIssue`, `assignIssue` and `transitionIssue`: an UPDATE, a history row and an
-- event, in one transaction.
versioned_write_ok :
    (env : Env) (issue : Issue) (expected : ℕ) (setters : Issue → Issue)
    (same_id : (r : Issue) → (setters r).id ≡ r.id) (actor : Text) (action event_type : String)
    (from to payload : Issue → Value) (db : Db) (row : Issue) (db' : Db)
    → IsUnique (issue_ids db.issues)
    → transaction
        (update_with_version env issue expected setters >>= λ updated.
          insert_history env updated actor action (from updated) (to updated)
          >> (insert_event env updated actor event_type (payload updated) >> pure updated))
        db
      ≡ (ok row, db')
    → Written db db' issue.id expected (next_version env.db_now setters) row
versioned_write_ok env issue expected setters same_id actor action event_type from to payload db row
      db' u h =
    let work = transaction_ok _ db row db' h in
    let (updated, mid, e, k) = and_then-eq-ok _ _ row db' work in
    let up = update_with_version_ok env issue expected setters same_id db updated mid u e in
    Updated-Written env issue.id expected setters same_id db mid updated actor action event_type
      (from updated) (to updated) (payload updated) row db' u up k

-- A successful `updateIssue` found the issue at the expected version, stored the given details
-- under the next version, and made no other change.
pub update_issue_ok :
    (env : Env) (issue : Issue) (expected : ℕ) (given : UpdateIssueData) (actor : Text) (db : Db)
    (row : Issue) (db' : Db)
    → IsUnique (issue_ids db.issues)
    → update_issue env issue expected given actor db ≡ (ok row, db')
    → Written db db' issue.id expected (next_version env.db_now (set_details given)) row
unfolding update_issue update_work
update_issue_ok env issue expected given actor db row db' u h =
    versioned_write_ok env issue expected (set_details given) (λ r. refl) actor "UPDATED"
      "issue.updated" (λ r. details_value issue) details_value (λ r. updated_payload issue r actor)
      db row db' u h

-- A successful `assignIssue` found the issue at the expected version, stored the assignee under the
-- next version, and made no other change.
pub assign_issue_ok :
    (env : Env) (issue : Issue) (expected : ℕ) (assignee : Option Text) (actor : Text) (db : Db)
    (row : Issue) (db' : Db)
    → IsUnique (issue_ids db.issues)
    → assign_issue env issue expected assignee actor db ≡ (ok row, db')
    → Written db db' issue.id expected (next_version env.db_now (set_assignee assignee)) row
unfolding assign_issue assign_work
assign_issue_ok env issue expected assignee actor db row db' u h =
    versioned_write_ok env issue expected (set_assignee assignee) (λ r. refl) actor
      "ASSIGNEE_CHANGED" "issue.assigned" (λ r. assignee_value issue.assignee_user_id)
      (λ r. assignee_value assignee) (λ r. assigned_payload issue r assignee actor) db row db' u h

-- A successful `transitionIssue` found the issue at the expected version, stored the target status
-- under the next version, and made no other change.
pub transition_issue_ok :
    (env : Env) (issue : Issue) (expected : ℕ) (transition : ValidatedIssueTransition)
    (actor : Text) (db : Db) (row : Issue) (db' : Db)
    → IsUnique (issue_ids db.issues)
    → transition_issue env issue expected transition actor db ≡ (ok row, db')
    → Written db db' issue.id expected (next_version env.db_now (set_status transition.to)) row
unfolding transition_issue transition_work
transition_issue_ok env issue expected transition actor db row db' u h =
    versioned_write_ok env issue expected (set_status transition.to) (λ r. refl) actor
      "STATUS_CHANGED" "issue.transitioned" (λ r. status_object transition.from)
      (λ r. status_object transition.to) (λ r. transitioned_payload r transition actor) db row db' u
      h

insert_comment_ok :
    (env : Env) (c : IssueComment) (db : Db) (comment : IssueComment) (db' : Db)
    → insert_comment env c db ≡ ok (comment, db')
    → (comment ≡ c) × (db' ≡ record db { comments = db.comments ++ c ∷ [] })
unfolding insert_comment
insert_comment_ok env c db comment db' h = ground arith

-- After the UPDATE of `addComment`: the comment is inserted, and the history row and the event.
comment_tail_ok :
    (env : Env) (issue updated : Issue) (author body : Text) (db mid : Db) (comment : IssueComment)
    (db' : Db)
    → IsUnique (issue_ids db.issues)
    → Updated db mid issue.id issue.version (next_version env.db_now set_nothing) updated
    → (insert_comment env (comment_row env issue author body) >>= λ c.
          insert_history env updated author "COMMENT_ADDED" null (comment_value c)
          >> (insert_event env updated author "issue.commented"
                (commented_payload issue c author body)
              >> pure c))
        mid
      ≡ ok (comment, db')
    → Written db db' issue.id issue.version (next_version env.db_now set_nothing) updated
      × (comment ≡ comment_row env issue author body)
      × (db'.comments ≡ mid.comments ++ comment ∷ [])
comment_tail_ok env issue updated author body db mid comment db' u up k =
    let (c, mid', e, k') = and_then-eq-ok _ _ comment db' k in
    let (same_c, stored) = insert_comment_ok env (comment_row env issue author body) mid c mid' e in
    let (same, after) =
      record_ok env updated author "COMMENT_ADDED" "issue.commented" null (comment_value c)
        (commented_payload issue c author body) c mid' comment db' k' in
    let change =
      Updated-Change env issue.id issue.version set_nothing (λ r. refl) db mid updated author
        "COMMENT_ADDED" "issue.commented" null (comment_value c)
        (commented_payload issue c author body) db' u up
        (ap (λ d. d.issues) after ∙ ap (λ d. d.issues) stored)
        (ap (λ d. d.history) after
          ∙ ap
              (λ d.
                d.history
                ++ history_row env updated author "COMMENT_ADDED" null (comment_value c) ∷ [])
              stored)
        (ap (λ d. d.outbox) after
          ∙ ap
              (λ d.
                d.outbox
                ++ event_row env updated author "issue.commented"
                    (commented_payload issue c author body)
                  ∷ [])
              stored) in
    (
      (up.before, up.found, up.expected_version, up.returned, change),
      same ∙ same_c,
      ap (λ d. d.comments) after
          ∙ ap (λ d. d.comments) stored
          ∙ ap (λ x. mid.comments ++ x ∷ []) (sym (same ∙ same_c)),
    )

-- A successful `addComment` found the issue at the version that was read, stored the comment at the
-- end of the comments, gave the issue its next version, and made no other change.
pub add_comment_ok :
    (env : Env) (issue : Issue) (author body : Text) (db : Db) (comment : IssueComment) (db' : Db)
    → IsUnique (issue_ids db.issues)
    → add_comment env issue author body db ≡ (ok comment, db')
    → (row : Issue) × Written db db' issue.id issue.version
        (next_version env.db_now set_nothing)
        row
      × (comment ≡ comment_row env issue author body)
      × (db'.comments ≡ db.comments ++ comment ∷ [])
unfolding add_comment comment_work
add_comment_ok env issue author body db comment db' u h =
    let work = transaction_ok (comment_work env issue author body) db comment db' h in
    let (updated, mid, e, k) = and_then-eq-ok _ _ comment db' work in
    let up =
      update_with_version_ok env issue issue.version set_nothing (λ r. refl) db updated mid u e in
    let (written, row, stored) =
      comment_tail_ok env issue updated author body db mid comment db' u up k in
    (updated, written, row, stored ∙ ap (λ d. d.comments ++ comment ∷ []) up.rest)
