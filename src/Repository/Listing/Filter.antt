-- ===== src/Repository/Listing/Filter.antt =====
-- apps/issue-service-nest/src/application/ports.ts: what a list of issues is filtered by, and the
-- position that a page follows.
use jira_microservices_lab.Common.{Text, Option}
use jira_microservices_lab.Domain.Issue.{IssueStatus}

pub record IssueListFilter : Type 0 where
  pub status : Option IssueStatus
  pub assignee_user_id : Option Text
  pub sprint_id : Option Text
  pub q : Option Text

pub record IssueListPosition : Type 0 where
  pub created_at : Text
  pub id : Text
