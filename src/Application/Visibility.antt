-- ===== src/Application/Visibility.antt =====
-- apps/issue-service-nest/src/application/issue-application.service.ts: who gets through
-- `requireVisibleIssue` and `requireWritableProject`.
use jira_microservices_lab.Common.{
  ◌≡◌, refl, ap, ◌∙◌, subst, Text, Option, Bool, true, none, some, arith,
}
use jira_microservices_lab.Json.{str}
use jira_microservices_lab.Domain.Errors.{
  Error, Result, ok, err, and_then, some_or, not_found, has_status,
}
use jira_microservices_lab.Domain.Issue.{Issue}
use jira_microservices_lab.Domain.Values.{uuid}
use jira_microservices_lab.Repository.Db.{Db}
use jira_microservices_lab.Repository.Table.{find_row, find_row-id}
use jira_microservices_lab.Application.Access.{
  ProjectAccess, ProjectAccessContext, RequestContext, active, assert_writable, checked_access,
  hide_missing, require_visible_issue, require_writable_project,
}

-- A successful bind succeeded in both parts.
pub bind-eq-ok :
    {A B : Type 0} (m : Result A) (f : A → Result B) (b : B)
    → and_then m f ≡ ok b
    → (a : A) × (m ≡ ok a) × (f a ≡ ok b)
bind-eq-ok (ok a) f b h = (a, refl, h)
bind-eq-ok (err e) f b h = cc

pub some_or_ok : {A : Type 0} (o : Option A) (e : Error) (a : A) → some_or o e ≡ ok a → o ≡ some a
some_or_ok none e a h = cc
some_or_ok (some b) e a h = ground arith

hide_missing_ok : (m : Result (Unit {0})) → hide_missing m ≡ ok tt → m ≡ ok tt
unfolding has_status
hide_missing_ok (ok tt) h = refl
hide_missing_ok (err e) h = ground arith

-- The access that a request needs: the project service granted it, and for a write the project is
-- not archived.
abbrev pub Granted : ProjectAccess → RequestContext → Bool → Issue → Type 0
Granted get_access context writable issue =
    (access : ProjectAccessContext) × (get_access issue.project_id context.user_id
        context.correlation_id
      ≡ ok access)
    × (writable ≡ true → access.project_status ≡ active)

checked_access_ok :
    (writable : Bool) (access : ProjectAccessContext)
    → checked_access writable access ≡ ok tt
    → writable ≡ true
    → access.project_status ≡ active
unfolding assert_writable
checked_access_ok writable access h w = ground arith

-- An issue that `requireVisibleIssue` returns stands in the database, and the user may see its
-- project, which for a write is not archived.
pub require_visible_issue_ok :
    (get_access : ProjectAccess) (id : Text) (context : RequestContext) (writable : Bool) (db : Db)
    (issue : Issue)
    → require_visible_issue get_access id context writable db ≡ ok issue
    → (find_row issue.id db.issues ≡ some issue) × Granted get_access context writable issue
unfolding require_visible_issue
require_visible_issue_ok get_access id context writable db issue h =
    let (issue_id, _, h1) = bind-eq-ok (uuid (str id) "issueId") _ issue h in
    let (found, e, h2) = bind-eq-ok (some_or (find_row issue_id db.issues) not_found) _ issue h1 in
    let (u, g, h3) = bind-eq-ok _ _ issue h2 in
    let (access, a, c) = bind-eq-ok _ _ tt (hide_missing_ok _ g) in
    let same : found ≡ issue = ground (arith, h3) in
    let row = some_or_ok (find_row issue_id db.issues) not_found found e in
    (
      subst (λ (i : Issue). find_row i.id db.issues ≡ some i) same
          (ap (λ t. find_row t db.issues) (find_row-id issue_id db.issues found row) ∙ row),
      subst (λ (i : Issue). Granted get_access context writable i) same
          (access, a, checked_access_ok writable access c),
    )

-- For a valid identifier of a stored issue whose project the project service answers with 404,
-- the outcome is the same as with a database where the issue does not exist, for reads and for
-- writes.
require_visible_issue_hides :
    (get_access : ProjectAccess) (id : Text) (context : RequestContext) (writable : Bool)
    (db empty_db : Db) (issue : Issue) (issue_id : Text) (e : Error)
    → uuid (str id) "issueId" ≡ ok issue_id
    → find_row issue_id db.issues ≡ some issue
    → find_row issue_id empty_db.issues ≡ none
    → get_access issue.project_id context.user_id context.correlation_id ≡ err e
    → has_status 404 e ≡ true
    → require_visible_issue get_access id context writable db
      ≡ require_visible_issue get_access id context writable empty_db
unfolding require_visible_issue
require_visible_issue_hides get_access id context writable db empty_db issue issue_id e u f g a s =
    ground arith

pub require_writable_project_ok :
    (get_access : ProjectAccess) (project_id : Text) (context : RequestContext)
    (access : ProjectAccessContext)
    → require_writable_project get_access project_id context ≡ ok access
    → (get_access project_id context.user_id context.correlation_id ≡ ok access)
      × (access.project_status ≡ active)
unfolding require_writable_project
require_writable_project_ok get_access project_id context access h = ground arith
