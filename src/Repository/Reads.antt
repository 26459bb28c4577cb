-- ===== src/Repository/Reads.antt =====
-- apps/issue-service-nest/src/infrastructure/postgres-issue.repository.ts: the lists of the comments
-- and of the history of an issue.
use jira_microservices_lab.Common.{
  ℕ, Text, text_eq, text_lt, Bool, List, keep, ltb, ◌==◌, if◌then◌else◌, sort_rows,
}
use jira_microservices_lab.Domain.Issue.{IssueComment, IssueHistory}
use jira_microservices_lab.Repository.Db.{Db}

-- ORDER BY created_at ASC, id ASC
abbrev pub earlier : ℕ → Text → ℕ → Text → Bool
earlier t i u j = if t == u then text_lt i j else ltb t u

abbrev comment_before : IssueComment → IssueComment → Bool
comment_before a b = earlier a.created_at a.id b.created_at b.id

abbrev history_before : IssueHistory → IssueHistory → Bool
history_before a b = earlier a.created_at a.id b.created_at b.id

unfoldable pub list_comments : Text → Db → List IssueComment
unfolding sort_rows
list_comments issue_id db =
    sort_rows comment_before (keep (λ c. text_eq c.issue_id issue_id) db.comments)

unfoldable pub list_history : Text → Db → List IssueHistory
unfolding sort_rows
list_history issue_id db =
    sort_rows history_before (keep (λ h. text_eq h.issue_id issue_id) db.history)
