-- ===== src/WebClient/Forms/Saved.antt =====
-- apps/web-client/src/features/issue/components/IssueDetailModal/IssueDetailModal.tsx against
-- apps/issue-service-nest/src/application/issue-application.service.ts: what the issue service makes
-- of the form for the details of an issue.
use Prim.Native.String.{String}
use jira_microservices_lab.Common.{
  ℕ, ◌≡◌, ◌≢◌, refl, ◌≤◌, true, Text, codes, Option, none, some, [], ◌∷◌, trim, upper, text_eq,
  length, subst, ◌⊎◌, inl, inr, arith,
}
use jira_microservices_lab.Json.{Fields, str, get, has_own, obj}
use jira_microservices_lab.Domain.Errors.{ok}
use jira_microservices_lab.Domain.Values.{enum_value, find_named, required_text, optional_text}
use jira_microservices_lab.Domain.Issue.{
  Issue, IssueType, task, bug, story, IssuePriority, low, medium, high, critical, issue_types,
  issue_priorities, type_name, priority_name, issue_type_name, issue_priority_name,
}
use jira_microservices_lab.Repository.Db.{Db}
use jira_microservices_lab.Repository.Writes.{UpdateIssueData}
use jira_microservices_lab.Application.Access.{ProjectAccess, RequestContext, require_visible_issue}
use jira_microservices_lab.Application.Input.{
  max_safe, body, expected_version, assert_expected_version, assert_core_patch_fields,
  has_core_patch_mutation,
}
use jira_microservices_lab.Application.Plans.{change, patched, update_plan}
use jira_microservices_lab.WebClient.Requests.{
  IssueCall, update_issue, with_expected, issue_request,
}
use jira_microservices_lab.WebClient.Forms.{EditForm, edit_payload, submit_edit}

type_read : (t : IssueType) → enum_value (str (codes (type_name t))) "type" issue_types ≡ ok t
unfolding enum_value find_named codes trim upper text_eq
type_read task = refl
type_read bug = refl
type_read story = refl

priority_read :
    (p : IssuePriority)
    → enum_value (str (codes (priority_name p))) "priority" issue_priorities ≡ ok p
unfolding enum_value find_named codes trim upper text_eq
priority_read low = refl
priority_read medium = refl
priority_read high = refl
priority_read critical = refl

text_cases : (s : Text) → (s ≡ []) ⊎ ((c : ℕ) × (t : Text) × (s ≡ c ∷ t))
text_cases [] = inl refl
text_cases (c ∷ t) = inr (c, t, refl)

-- A form as it is filled in.
abbrev pub filled_in : Text → Text → IssueType → IssuePriority → EditForm
filled_in summary description t p = record {
  summary = some summary;
  description = some description;
  type = some (codes (type_name t));
  priority = some (codes (priority_name p));
}

-- A description that is blank is none.
abbrev pub stored_description : Text → Option Text
stored_description [] = none
stored_description (c ∷ s) = some (c ∷ s)

pub text_read :
    (s : Text) (name : String) (most : ℕ)
    → trim s ≢ []
    → length (trim s) ≤ most
    → required_text (str s) name most ≡ ok (trim s)
unfolding required_text
text_read s name most n h = elim (text_cases (trim s)) [
  | inl e ↦ absurd (n e)
  | inr (c, t, e) ↦ ground arith
]

description_read :
    (s : Text)
    → length (trim s) ≤ 5000
    → optional_text (str s) "description" 5000 ≡ ok (stored_description (trim s))
unfolding optional_text required_text
description_read s h = elim (text_cases (trim s)) [
  | inl e ↦ rw e refl
  | inr (c, t, e) ↦ ground arith
]

-- The details that are stored.
abbrev details : Text → Text → IssueType → IssuePriority → UpdateIssueData
details s d t p = record {
  summary = trim s;
  description = stored_description (trim d);
  type = t;
  priority = p;
}

-- The properties of the body.
abbrev edit_fields : Text → Text → IssueType → IssuePriority → ℕ → Fields
edit_fields s d t p version = with_expected (edit_payload (filled_in s d t p)) version

patched_read :
    (issue : Issue) (s d : Text) (t : IssueType) (p : IssuePriority)
    → trim s ≢ []
    → length (trim s) ≤ 200
    → length (trim d) ≤ 5000
    → patched issue (edit_fields s d t p issue.version) ≡ ok (details s d t p)
unfolding patched get
patched_read issue s d t p n a b =
    rw (text_read s "summary" 200 n a)
      (rw (description_read d b) (rw (type_read t) (rw (priority_read p) refl)))

expected_read :
    (version : ℕ) (s d : Text) (t : IssueType) (p : IssuePriority)
    → 1 ≤ version
    → version ≤ max_safe
    → expected_version (edit_fields s d t p version) ≡ ok version
unfolding expected_version get
expected_read version s d t p v w = ground arith

-- What is left of the plan, once the issue is found as it was shown.
update_plan_read :
    (get_access : ProjectAccess) (context : RequestContext) (db : Db) (issue : Issue) (s d : Text)
    (t : IssueType) (p : IssuePriority)
    → require_visible_issue get_access issue.id context true db ≡ ok issue
    → 1 ≤ issue.version
    → issue.version ≤ max_safe
    → patched issue (edit_fields s d t p issue.version) ≡ ok (details s d t p)
    → update_plan get_access issue.id (obj (edit_fields s d t p issue.version)) context db
      ≡ ok (change issue issue.version (details s d t p))
unfolding update_plan body assert_core_patch_fields has_core_patch_mutation has_own
    assert_expected_version
update_plan_read get_access context db issue s d t p h v w read =
    let expected = expected_read issue.version s d t p v w in
    rw expected (rw h (ground (arith, read)))

-- Saving the details of an issue stores them as they were typed, without outer space: for an issue
-- that is stored as the form shows it, in a project that the user may write to, with a version that is
-- a positive safe integer, a summary that is not blank and at most 200 units long and a description of
-- at most 5000, the issue service plans the change to these details at this version, where a blank
-- description is none.
pub submit_edit_saved :
    (get_access : ProjectAccess) (context : RequestContext) (db : Db) (issue : Issue) (s d : Text)
    (t : IssueType) (p : IssuePriority) (call : IssueCall)
    → submit_edit true issue (filled_in s d t p) ≡ some call
    → require_visible_issue get_access issue.id context true db ≡ ok issue
    → 1 ≤ issue.version
    → issue.version ≤ max_safe
    → trim s ≢ []
    → length (trim s) ≤ 200
    → length (trim d) ≤ 5000
    → update_plan get_access issue.id (issue_request call).body context db
      ≡ ok (
          change issue issue.version (record {
            summary = trim s;
            description = stored_description (trim d);
            type = t;
            priority = p;
          }))
submit_edit_saved get_access context db issue s d t p call e h v w n a b =
    let sent : update_issue issue.id (edit_payload (filled_in s d t p)) issue.version ≡ call =
      ground arith in
    let read = patched_read issue s d t p n a b in
    subst
      (λ (c : IssueCall).
        update_plan get_access issue.id (issue_request c).body context db
        ≡ ok (change issue issue.version (details s d t p)))
      sent (update_plan_read get_access context db issue s d t p h v w read)
