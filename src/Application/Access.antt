-- ===== src/Application/Access.antt =====
-- apps/issue-service-nest/src/application/issue-application.service.ts: who may see and change an
-- issue. The project service is asked through the port of
-- apps/issue-service-nest/src/application/ports.ts, here a parameter.
use jira_microservices_lab.Common.{Text, Bool, if◌then◌else◌}
use jira_microservices_lab.Json.{str, end}
use jira_microservices_lab.Domain.Errors.{
  Error, Result, ok, err, ◌>>=◌, ◌>>◌, domain_error, not_found, has_status, some_or,
}
use jira_microservices_lab.Domain.Issue.{Issue}
use jira_microservices_lab.Domain.Values.{uuid}
use jira_microservices_lab.Repository.Db.{Db}
use jira_microservices_lab.Repository.Table.{find_row}

pub data ProjectStatus : Type 0 where
  active archived : ProjectStatus

pub data MembershipRole : Type 0 where
  owner admin member : MembershipRole

pub record ProjectAccessContext : Type 0 where
  pub project_id : Text
  pub workspace_id : Text
  pub project_key : Text
  pub project_status : ProjectStatus
  pub membership_role : MembershipRole

-- `getAccess(projectId, userId, correlationId)`: the answers that one request receives.
abbrev pub ProjectAccess : Type 0
ProjectAccess = Text → Text → Text → Result ProjectAccessContext

pub record RequestContext : Type 0 where
  pub user_id : Text
  pub correlation_id : Text

unfoldable pub project_archived : Error
unfolding domain_error
project_archived = domain_error 409 "PROJECT_ARCHIVED" "Archived projects reject issue writes" end

abbrev pub writable_status : ProjectStatus → Result (Unit {0})
writable_status active = ok tt
writable_status archived = err project_archived

unfoldable pub assert_writable : ProjectAccessContext → Result (Unit {0})
assert_writable access = writable_status access.project_status

-- The check inside the `try` of `requireVisibleIssue`.
abbrev pub checked_access : Bool → ProjectAccessContext → Result (Unit {0})
checked_access writable access = if writable then assert_writable access else ok tt

-- Its `catch`: an error with status 404 becomes the issue's own `not_found`.
abbrev pub hide_missing : Result (Unit {0}) → Result (Unit {0})
hide_missing (ok u) = ok u
hide_missing (err e) = if has_status 404 e then err not_found else err e

module _ (get_access : ProjectAccess) where
  unfoldable pub require_visible_issue : Text → RequestContext → Bool → Db → Result Issue
  unfolding assert_writable has_status
  require_visible_issue issue_id_value context writable db = do
    issue_id ← uuid (str issue_id_value) "issueId"
    issue ← some_or (find_row issue_id db.issues) not_found
    hide_missing (
        get_access issue.project_id context.user_id context.correlation_id
        >>= checked_access writable)
    ok issue

  unfoldable pub require_writable_project : Text → RequestContext → Result ProjectAccessContext
  unfolding assert_writable
  require_writable_project project_id context = do
    access ← get_access project_id context.user_id context.correlation_id
    assert_writable access
    ok access
