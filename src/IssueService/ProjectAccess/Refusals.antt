-- ===== src/IssueService/ProjectAccess/Refusals.antt =====
-- apps/issue-service-nest/src/infrastructure/project-access.client.ts under `requireVisibleIssue` of
-- apps/issue-service-nest/src/application/issue-application.service.ts: what the answer of the
-- project service means for a request for an issue.
use jira_microservices_lab.Common.{
  ℕ, ◌≡◌, refl, Text, Bool, false, some, ◌==◌, ap, sym, ◌∙◌, codes, none, ◌⊎◌, inl, inr, arith,
}
use jira_microservices_lab.Json.{Value, Fields, str, obj, end, get, as_text}
use jira_microservices_lab.Domain.Errors.{
  Error, domain, Result, ok, err, and_then, has_status, domain_error, not_found,
}
use jira_microservices_lab.Domain.Values.{uuid}
use jira_microservices_lab.Domain.Issue.{Issue}
use jira_microservices_lab.Repository.Db.{Db}
use jira_microservices_lab.Repository.Table.{find_row}
use jira_microservices_lab.Application.Access.{
  ProjectAccess, ProjectAccessContext, RequestContext, hide_missing, require_visible_issue,
}
use jira_microservices_lab.Gateway.Client.{HttpRequest, is_ok}
use jira_microservices_lab.IssueService.ProjectAccess.{
  Answer, no_answer, answer, project_service_unavailable, access_error, read_access, string_else,
  access_request, get_access,
}

-- A text that is given as a value of JSON, or another one in place of what is no text.
abbrev pub TextOr : Value → Text → Text → Type 0
TextOr v other t = (v ≡ str t) ⊎ ((as_text v ≡ none) × (t ≡ other))

TextOr-else : (v : Value) (other t : Text) → TextOr v other t → string_else (as_text v) other ≡ t
TextOr-else v other t (inl e) = rw e refl
TextOr-else v other t (inr (e, same)) = rw e (sym same)

-- What the user is told of an answer that does not grant access.
pub data Refuses : Answer → Error → Type 0 where
  unavailable : Refuses no_answer (
      domain (record {
        status = 503;
        code = codes "PROJECT_SERVICE_UNAVAILABLE";
        message = codes "Project service is unavailable";
        details = end;
      }))
  missing :
      {body : Fields}
      → Refuses (answer 404 (some (obj body))) (
          domain (record {
            status = 404;
            code = codes "ISSUE_NOT_FOUND";
            message = codes "Issue was not found";
            details = end;
          }))
  refused :
      {status : ℕ} {body : Fields} {code message : Text}
      → is_ok status ≡ false
      → (status == 404) ≡ false
      → TextOr (get "code" body) (codes "PROJECT_ACCESS_FAILED") code
      → TextOr (get "message" body) (codes "Project access check failed") message
      → Refuses
          (answer status (some (obj body)))
          (domain (record { status = status; code = code; message = message; details = end }))

access_error_lem :
    (status : ℕ) (body : Fields) (code message : Text)
    → TextOr (get "code" body) (codes "PROJECT_ACCESS_FAILED") code
    → TextOr (get "message" body) (codes "Project access check failed") message
    → access_error status body
      ≡ domain (record { status = status; code = code; message = message; details = end })
unfolding access_error
access_error_lem status body code message c m =
    rw (TextOr-else _ _ code c) (rw (TextOr-else _ _ message m) refl)

-- An error of the project service comes back, hidden if it has status 404.
require_visible_issue_err :
    (get_access : ProjectAccess) (id : Text) (context : RequestContext) (writable : Bool) (db : Db)
    (issue : Issue) (issue_id : Text) (e : Error)
    → uuid (str id) "issueId" ≡ ok issue_id
    → find_row issue_id db.issues ≡ some issue
    → get_access issue.project_id context.user_id context.correlation_id ≡ err e
    → require_visible_issue get_access id context writable db
      ≡ and_then (hide_missing (err e)) (λ u. ok issue)
unfolding require_visible_issue
require_visible_issue_err get_access id context writable db issue issue_id e u f g =
    rw u (rw f (rw g refl))

module _ (cast : Value → ProjectAccessContext) where
  -- What is left of a refusal, once an error of 404 is hidden.
  hidden_refusal :
      {B : Type 0} (a : Answer) (e : Error) (f : Unit {0} → Result B)
      → Refuses a e
      → (thrown : Error) × (read_access cast a ≡ err thrown)
        × (and_then (hide_missing (err thrown)) f ≡ err e)
  unfolding read_access access_error has_status domain_error not_found
  hidden_refusal a e f unavailable = (project_service_unavailable, refl, refl)
  hidden_refusal a e f (missing {body}) = (access_error 404 body, refl, refl)
  hidden_refusal a e f (refused {status} {body} {code} {message} s n c m) =
      let thrown : Error =
        domain (record { status = status; code = code; message = message; details = end }) in
      let same : access_error status body ≡ thrown =
        access_error_lem status body code message c m in
      let read : read_access cast (answer status (some (obj body)))
          ≡ err (access_error status body) =
        ground arith in
      (thrown, read ∙ ap (λ x. err x) same, ground arith)

module _ (encode : Text → Text) (base_url secret : Text) (cast : Value → ProjectAccessContext)
    (fetch : HttpRequest → Answer) where
  -- For a valid identifier of a stored issue, what the user is told when the project service does
  -- not grant access: that the project service is unavailable when it does not answer; and when
  -- it answers with an object, that the issue is missing if the status is 404, and for any other
  -- status but 2xx that status, with the code and the message of the object, or the code
  -- PROJECT_ACCESS_FAILED and its message where they are no texts.
  pub require_visible_issue_refuses :
      (id : Text) (context : RequestContext) (writable : Bool) (db : Db) (issue : Issue)
      (issue_id : Text) (a : Answer) (e : Error)
      → uuid (str id) "issueId" ≡ ok issue_id
      → find_row issue_id db.issues ≡ some issue
      → fetch (
          access_request encode base_url secret issue.project_id context.user_id
            context.correlation_id)
        ≡ a
      → Refuses a e
      → require_visible_issue (get_access encode base_url secret cast fetch) id context writable db
        ≡ err e
  unfolding get_access require_visible_issue
  require_visible_issue_refuses id context writable db issue issue_id a e u f g r =
      let (thrown, t, hidden) = hidden_refusal cast a e (λ u. ok issue) r in
      require_visible_issue_err (get_access encode base_url secret cast fetch) id context writable
        db issue issue_id thrown u f (ap (read_access cast) g ∙ t)
      ∙ hidden
