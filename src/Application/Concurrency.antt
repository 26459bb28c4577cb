-- ===== src/Application/Concurrency.antt =====
-- apps/issue-service-nest/src/application/issue-application.service.ts: what a handler writes
-- when other requests have changed the tables since it read; the parts that the handlers share.
pub mod Transition
pub mod Assign
pub mod Patch
pub mod Comment
use jira_microservices_lab.Common.{ℕ, ◌≡◌, refl, ap, sym, ◌∙◌, subst, Text, true, some, List, arith}
use jira_microservices_lab.Json.{Value, get}
use jira_microservices_lab.Domain.Errors.{Result, ok, err}
use jira_microservices_lab.Domain.Issue.{
  Issue, IssueStatus, ValidatedIssueTransition, issue_statuses, assert_transition,
  issue_status_name,
}
use jira_microservices_lab.Domain.Issue.Workflow.{Edge, assert_transition_iff}
use jira_microservices_lab.Domain.Values.{enum_value}
use jira_microservices_lab.Repository.Db.{Db, Env}
use jira_microservices_lab.Repository.Table.{find_row}
use jira_microservices_lab.Repository.Statements.{next_version}
use jira_microservices_lab.Repository.Writes.{
  UpdateIssueData, set_details, set_assignee, set_status, set_nothing, comment_row,
}
use jira_microservices_lab.Repository.Changes.{Change}
use jira_microservices_lab.Repository.Operations.{Written, transition_issue_ok}
use jira_microservices_lab.Repository.Invariant.{IsValid}
use jira_microservices_lab.Repository.Steps.{Request, run, run-IsValid}
use jira_microservices_lab.Repository.Versions.{unchanged_if_same_version}
use jira_microservices_lab.Application.Access.{ProjectAccess, RequestContext, require_visible_issue}
use jira_microservices_lab.Application.Input.{body, expected_version, assert_expected_version}
use jira_microservices_lab.Application.Plans.{transition_plan}
use jira_microservices_lab.Repository.Writes
use jira_microservices_lab.Application.Handlers.{carry_out, transition_issue}
use jira_microservices_lab.Application.Visibility.{bind-eq-ok, Granted, require_visible_issue_ok}

pub assert_expected_version_ok :
    (issue : Issue) (expected : ℕ)
    → assert_expected_version issue expected ≡ ok tt
    → issue.version ≡ expected
unfolding assert_expected_version
assert_expected_version_ok issue expected h = ground arith

-- The write found the issue exactly as the request had read it, changed it by `f`, and changed
-- nothing else.
abbrev pub WrittenAsRead : Db → Db → Db → (Issue → Issue) → Issue → Issue → Type 0
WrittenAsRead read write db' f issue row =
    (find_row issue.id read.issues ≡ some issue)
    × (find_row issue.id write.issues ≡ some issue)
    × (row ≡ f issue)
    × Change write db' row

pub Written-as_read :
    (rs : List Request) (read db' : Db) (f : Issue → Issue) (issue row : Issue) (expected : ℕ)
    → IsValid read
    → find_row issue.id read.issues ≡ some issue
    → issue.version ≡ expected
    → Written (run rs read) db' issue.id expected f row
    → WrittenAsRead read (run rs read) db' f issue row
Written-as_read rs read db' f issue row expected v e n (before, found, same, r, c) =
    let kept : before ≡ issue =
      unchanged_if_same_version rs read issue.id issue before v e found (same ∙ sym n) in
    (e, found ∙ ap some kept, r ∙ ap f kept, c)

-- A handler that returns a value had a plan and carried it out.
pub carry_out_ok :
    {A B : Type 0} (p : Result A) (f : A → Db → Result B × Db) (write : Db) (b : B) (db' : Db)
    → carry_out p f write ≡ (ok b, db')
    → (a : A) × (p ≡ ok a) × (f a write ≡ (ok b, db'))
carry_out_ok (ok a) f write b db' h = (a, refl, h)
carry_out_ok (err e) f write b db' h = absurd (ground arith)

-- What a plan has established of the issue that it names and of the expected version.
abbrev pub Planned : ProjectAccess → RequestContext → Db → Issue → ℕ → Type 0
Planned get_access context db issue expected =
    (find_row issue.id db.issues ≡ some issue)
    × Granted get_access context true issue
    × (issue.version ≡ expected)

pub Planned-seen :
    (get_access : ProjectAccess) (id : Text) (context : RequestContext) (db : Db)
    (seen issue : Issue) (n expected : ℕ)
    → require_visible_issue get_access id context true db ≡ ok seen
    → assert_expected_version seen n ≡ ok tt
    → seen ≡ issue
    → n ≡ expected
    → Planned get_access context db issue expected
Planned-seen get_access id context db seen issue n expected visible version e en =
    let (row, granted) = require_visible_issue_ok get_access id context true db seen visible in
    subst (λ (i : Issue). Planned get_access context db i expected) e
      (row, granted, assert_expected_version_ok seen n version ∙ en)
