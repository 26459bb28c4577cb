-- ===== src/Tests/Reading.antt =====
-- The handlers that read, and the context of a request.
use jira_microservices_lab.Common.{◌≡◌, refl, codes, List}
use jira_microservices_lab.Domain.Errors.{ok}
use jira_microservices_lab.Domain.Issue.{IssueComment, IssueHistory}
use jira_microservices_lab.Repository.Db.{Db}
use jira_microservices_lab.Application.Access.{RequestContext}
use jira_microservices_lab.Application.Handlers.{list_comments, list_history, add_comment}
use jira_microservices_lab.Repository.Reads
use jira_microservices_lab.Presentation.{absent, once, request_context}
use jira_microservices_lab.Tests.Running.{code}
use jira_microservices_lab.Tests.Data.{
  issue_id, alice, second_env, one_issue, open_access, by_alice, comment_body,
}

-- The database with one issue and one comment.
abbrev commented_db : Db
commented_db =
    (add_comment open_access by_alice second_env issue_id comment_body one_issue one_issue).1

abbrev comments : List IssueComment
comments = Reads.list_comments issue_id commented_db

abbrev changes : List IssueHistory
changes = Reads.list_history issue_id commented_db

comments_shown : list_comments open_access issue_id by_alice commented_db ≡ ok comments
unfolding code
comments_shown = refl

changes_shown : list_history open_access issue_id by_alice commented_db ≡ ok changes
unfolding code
changes_shown = refl

abbrev alone : RequestContext
alone = record { user_id = alice; correlation_id = codes "r9" }

alone_accepted : request_context (codes "r9") (once alice) absent ≡ ok alone
unfolding code
alone_accepted = refl
