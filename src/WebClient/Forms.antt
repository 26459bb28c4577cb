-- ===== src/WebClient/Forms.antt =====
-- apps/web-client/src/features/issue/components/IssueDetailModal/IssueDetailModal.tsx and
-- IssueForm/IssueForm.tsx beside it: the request that a form sends. What `FormData.get` finds for the
-- name of a field is an option.
pub mod Saved
pub mod Commented
use jira_microservices_lab.Common.{
  Text, codes, Bool, true, false, Option, none, some, [], ◌∷◌, trim, length, ltb, if◌then◌else◌,
}
use jira_microservices_lab.Json.{Fields, str, field, end}
use jira_microservices_lab.Domain.Issue.{Issue}
use jira_microservices_lab.WebClient.Requests.{IssueCall, update_issue, assign_issue, add_comment}

pub record EditForm : Type 0 where
  pub summary : Option Text
  pub description : Option Text
  pub type : Option Text
  pub priority : Option Text

-- `String(form.get(name) ?? "")` and `String(form.get(name))`
abbrev pub text_or_empty : Option Text → Text
text_or_empty none = []
text_or_empty (some t) = t

abbrev pub text_or_null : Option Text → Text
text_or_null none = codes "null"
text_or_null (some t) = t

abbrev pub edit_payload : EditForm → Fields
edit_payload form = field "summary" (str (text_or_empty form.summary)) (
    field "description" (str (text_or_empty form.description)) (
      field "type" (str (text_or_null form.type))
        (field "priority" (str (text_or_null form.priority)) end)))

-- Nothing is sent for a project that is not writable.
abbrev pub submit_edit : Bool → Issue → EditForm → Option IssueCall
submit_edit false issue form = none
submit_edit true issue form = some (update_issue issue.id (edit_payload form) issue.version)

-- `value || null`
abbrev pub user_or_null : Text → Option Text
user_or_null [] = none
user_or_null (c ∷ s) = some (c ∷ s)

abbrev pub submit_assignment : Bool → Issue → Option Text → Option IssueCall
submit_assignment false issue value = none
submit_assignment true issue value =
    some (assign_issue issue.id (user_or_null (text_or_empty value)) issue.version)

abbrev pub comment_call : Issue → Text → Option IssueCall
comment_call issue [] = none
comment_call issue (c ∷ s) =
    if ltb 5000 (length (c ∷ s)) then none else some (add_comment issue.id (c ∷ s))

abbrev pub submit_comment : Bool → Issue → Option Text → Option IssueCall
submit_comment false issue value = none
submit_comment true issue value = comment_call issue (trim (text_or_empty value))
