-- ===== src/WebClient/Forms/Commented.antt =====
-- apps/web-client/src/features/issue/components/IssueDetailModal/IssueDetailModal.tsx against
-- apps/issue-service-nest/src/application/issue-application.service.ts: what the issue service makes
-- of the form for a comment.
use jira_microservices_lab.Common.{
  ◌≡◌, ◌≢◌, ◌≤◌, true, Text, Option, some, [], ◌∷◌, trim, trim_idem, length, subst, ap, arith,
}
use jira_microservices_lab.Json.{str, obj, field, end, get}
use jira_microservices_lab.Domain.Errors.{ok}
use jira_microservices_lab.Domain.Values.{required_text}
use jira_microservices_lab.Domain.Issue.{Issue}
use jira_microservices_lab.Repository.Db.{Db}
use jira_microservices_lab.Application.Access.{ProjectAccess, RequestContext, require_visible_issue}
use jira_microservices_lab.Application.Input.{body}
use jira_microservices_lab.Application.Plans.{comment_plan}
use jira_microservices_lab.WebClient.Requests.{IssueCall, add_comment, issue_request}
use jira_microservices_lab.WebClient.Forms.{text_or_empty, comment_call, submit_comment}
use jira_microservices_lab.WebClient.Forms.Saved.{text_read}

-- What is sent is not empty and within the limit.
sent_comment :
    (issue : Issue) (text : Text) (call : IssueCall)
    → comment_call issue text ≡ some call
    → (text ≢ []) × (length text ≤ 5000) × (add_comment issue.id text ≡ call)
sent_comment issue [] call e = cc
sent_comment issue (c ∷ s) call e = ground arith

comment_read :
    (get_access : ProjectAccess) (context : RequestContext) (db : Db) (issue : Issue) (text : Text)
    → require_visible_issue get_access issue.id context true db ≡ ok issue
    → trim text ≡ text
    → text ≢ []
    → length text ≤ 5000
    → comment_plan get_access issue.id (obj (field "body" (str text) end)) context db
      ≡ ok (issue, text)
unfolding comment_plan body get
comment_read get_access context db issue text h e n a =
    let read : required_text (str text) "body" 5000 ≡ ok (trim text) =
      text_read text "body" 5000 (rw e n) (rw e a) in
    rw h (rw read (ap (λ t. ok (issue, t)) e))

-- A comment that the form sends is one that the issue service takes, as it is: for an issue that is
-- stored as the form shows it, in a project that the user may write to, the plan stores the text that
-- was typed, without outer space.
pub submit_comment_saved :
    (get_access : ProjectAccess) (context : RequestContext) (db : Db) (issue : Issue)
    (value : Option Text) (call : IssueCall)
    → submit_comment true issue value ≡ some call
    → require_visible_issue get_access issue.id context true db ≡ ok issue
    → comment_plan get_access issue.id (issue_request call).body context db
      ≡ ok (issue, trim (text_or_empty value))
submit_comment_saved get_access context db issue value call e h =
    let text = trim (text_or_empty value) in
    let (n, a, sent) = sent_comment issue text call e in
    subst
      (λ (c : IssueCall).
        comment_plan get_access issue.id (issue_request c).body context db ≡ ok (issue, text))
      sent (comment_read get_access context db issue text h (trim_idem (text_or_empty value)) n a)
