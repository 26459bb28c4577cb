-- ===== src/Application/Privacy.antt =====
-- apps/issue-service-nest/src/application/issue-application.service.ts: what the handlers that
-- read show, and to whom.
use jira_microservices_lab.Common.{
  ◌≡◌, subst, arith, Text, text_eq, text_eq_iff, false, List, All, some, All-keep, All-sort_rows,
}
use jira_microservices_lab.Domain.Errors.{ok}
use jira_microservices_lab.Domain.Issue.{Issue, IssueComment, IssueHistory}
use jira_microservices_lab.Repository.Db.{Db}
use jira_microservices_lab.Repository.Table.{find_row}
use jira_microservices_lab.Repository.Reads
use jira_microservices_lab.Application.Access.{ProjectAccess, RequestContext, require_visible_issue}
use jira_microservices_lab.Application.Handlers.{list_comments, list_history}
use jira_microservices_lab.Application.Visibility.{bind-eq-ok, Granted, require_visible_issue_ok}

ok_injective : {A : Type 0} (a b : A) → ok a ≡ ok b → a ≡ b
ok_injective a b h = ground arith

comments_of : (id : Text) (db : Db) → All (λ c. c.issue_id ≡ id) (Reads.list_comments id db)
unfolding Reads.list_comments
comments_of id db =
    All-sort_rows (λ c. c.issue_id ≡ id) _ _
      (All-keep (λ c. c.issue_id ≡ id) (λ c. text_eq c.issue_id id) db.comments
        (λ c m e. (text_eq_iff c.issue_id id).0 e))

changes_of_issue : (id : Text) (db : Db) → All (λ c. c.issue_id ≡ id) (Reads.list_history id db)
unfolding Reads.list_history
changes_of_issue id db =
    All-sort_rows (λ c. c.issue_id ≡ id) _ _
      (All-keep (λ c. c.issue_id ≡ id) (λ c. text_eq c.issue_id id) db.history
        (λ c m e. (text_eq_iff c.issue_id id).0 e))

-- The comments that a user receives are all of one stored issue, to whose project the user has
-- access.
list_comments_safe :
    (get_access : ProjectAccess) (id : Text) (context : RequestContext) (db : Db)
    (comments : List IssueComment)
    → list_comments get_access id context db ≡ ok comments
    → (issue : Issue) × (find_row issue.id db.issues ≡ some issue)
      × Granted get_access context false issue
      × All (λ c. c.issue_id ≡ issue.id) comments
unfolding list_comments
list_comments_safe get_access id context db comments h =
    let (issue, visible, k) =
      bind-eq-ok (require_visible_issue get_access id context false db) _ comments h in
    let (there, granted) = require_visible_issue_ok get_access id context false db issue visible in
    (
      issue,
      there,
      granted,
      subst (All (λ c. c.issue_id ≡ issue.id)) (ok_injective _ comments k)
          (comments_of issue.id db),
    )

-- The history that a user receives is all of one stored issue, to whose project the user has
-- access.
list_history_safe :
    (get_access : ProjectAccess) (id : Text) (context : RequestContext) (db : Db)
    (changes : List IssueHistory)
    → list_history get_access id context db ≡ ok changes
    → (issue : Issue) × (find_row issue.id db.issues ≡ some issue)
      × Granted get_access context false issue
      × All (λ c. c.issue_id ≡ issue.id) changes
unfolding list_history
list_history_safe get_access id context db changes h =
    let (issue, visible, k) =
      bind-eq-ok (require_visible_issue get_access id context false db) _ changes h in
    let (there, granted) = require_visible_issue_ok get_access id context false db issue visible in
    (
      issue,
      there,
      granted,
      subst (All (λ c. c.issue_id ≡ issue.id)) (ok_injective _ changes k)
          (changes_of_issue issue.id db),
    )
