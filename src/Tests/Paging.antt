-- ===== src/Tests/Paging.antt =====
-- Lists of issues, as the issue service answers and the web client collects them. The stand-in for
-- `Buffer` leaves the text as it is, the one for the times of PostgreSQL knows ten microseconds, and
-- every text matches every pattern.
use jira_microservices_lab.Common.{
  ℕ, ◌+◌, ◌-◌, ◌≡◌, ◌≤◌, ◌<◌, refl, Text, codes, true, none, some, [], ◌∷◌, ◌++◌, length, arith,
  All,
}
use jira_microservices_lab.Json.{Fields, field, str, end}
use jira_microservices_lab.Domain.Errors.{ok}
use jira_microservices_lab.Domain.Issue.{Issue, todo}
use jira_microservices_lab.Repository.Db.{Db}
use jira_microservices_lab.Repository.Table.{issue_ids, IsUnique}
use jira_microservices_lab.Repository.Listing.{Platform}
use jira_microservices_lab.Repository.Listing.Filter.{IssueListFilter}
use jira_microservices_lab.Repository.Listing.Pages.{listed}
use jira_microservices_lab.Application.Listing.{IssueList, list_issues}
use jira_microservices_lab.Application.Listing.Answers.{
  Fits, IsFilter, list_issues_bounded, list_issues_safe,
}
use jira_microservices_lab.Application.Access.{ProjectAccessContext}
use jira_microservices_lab.Domain.Values.{uuid}
use jira_microservices_lab.Application.ListQuery.{parse_filter}
use jira_microservices_lab.WebClient.Issues.{IssueListFilters}
use jira_microservices_lab.WebClient.Issues
use jira_microservices_lab.WebClient.Issues.Complete.{IsListable, server, list_issues_complete}
use jira_microservices_lab.Tests.Running.{code}
use jira_microservices_lab.Tests.Data.{
  project_id, issue_id, alice, first_issue, open_access, by_alice, membership,
}

abbrev micro : ℕ → Text
micro t = codes "2024-02-29T23:59:59.12345" ++ (48 + t) ∷ codes "Z"

-- The digit before the last character.
abbrev micro_of : Text → ℕ
micro_of [] = 0
micro_of (c ∷ []) = 0
micro_of (c ∷ d ∷ []) = c - 48
micro_of (c ∷ d ∷ e ∷ s) = micro_of (d ∷ e ∷ s)

abbrev platform : Platform
platform = record {
  to_base64 = λ t. t;
  from_base64 = λ t. t;
  to_char = micro;
  timestamptz = micro_of;
  ilike = λ pattern t. true;
}

abbrev row : Text → ℕ → Issue
row id t = record {
  id = id;
  project_id = project_id;
  number = 1;
  key = codes "P-1";
  summary = codes "Fix it";
  description = none;
  type = first_issue.type;
  priority = first_issue.priority;
  status = todo;
  reporter_user_id = alice;
  assignee_user_id = none;
  epic_id = none;
  sprint_id = none;
  version = 1;
  created_at = t;
  updated_at = t;
}

abbrev older_row : Issue
older_row = row issue_id 3

abbrev newer_row : Issue
newer_row = row alice 7

abbrev two_issues : Db
two_issues = record {
  sequences = [];
  issues = older_row ∷ newer_row ∷ [];
  comments = [];
  history = [];
  outbox = [];
  epics = [];
  sprints = [];
}

abbrev with_status : IssueListFilters
with_status = record { status = some todo; assignee_user_id = none; sprint_id = none; q = none }

abbrev status_filter : IssueListFilter
status_filter = record { status = some todo; assignee_user_id = none; sprint_id = none; q = none }

project_named : uuid (str project_id) "projectId" ≡ ok project_id
unfolding code
project_named = refl

accepted : parse_filter (Issues.params with_status none) ≡ ok status_filter
unfolding code
accepted = refl

rows-IsUnique : IsUnique (issue_ids two_issues.issues)
unfolding code
rows-IsUnique = (refl, (refl, tt))

rows-IsListable : All (IsListable platform) two_issues.issues
unfolding code
rows-IsListable = ((refl, refl, refl, refl, refl), ((refl, refl, refl, refl, refl), tt))

few_rows : length (listed platform project_id status_filter two_issues) < 3
unfolding code
few_rows = omega arith

list_issues_complete_example :
    Issues.list_issues
      (server platform open_access project_id project_id by_alice membership with_status
        status_filter two_issues)
      with_status
      3
    ≡ some (ok (listed platform project_id status_filter two_issues))
list_issues_complete_example =
    list_issues_complete platform open_access project_id project_id by_alice membership with_status
      status_filter two_issues 3 project_named refl accepted rows-IsUnique rows-IsListable refl
      few_rows

-- The newest issue comes first.
listed_rows : listed platform project_id status_filter two_issues ≡ newer_row ∷ older_row ∷ []
unfolding code
listed_rows = refl

abbrev one_query : Fields
one_query = field "limit" (str (codes "1")) end

abbrev first_page : IssueList
first_page = record { items = newer_row ∷ []; next_cursor = some (micro 7 ++ b'|' ∷ alice) }

answered : list_issues platform open_access project_id one_query by_alice two_issues ≡ ok first_page
unfolding code
answered = refl

list_issues_bounded_example : length first_page.items ≤ 50
list_issues_bounded_example =
    list_issues_bounded platform open_access project_id one_query by_alice two_issues first_page
      answered

list_issues_safe_example :
    (p : Text) × (f : IssueListFilter) × (access : ProjectAccessContext) × (uuid
        (str project_id)
        "projectId"
      ≡ ok p)
    × (parse_filter one_query ≡ ok f)
    × IsFilter one_query f
    × (open_access p by_alice.user_id by_alice.correlation_id ≡ ok access)
    × All (λ r. Fits platform p f r) first_page.items
list_issues_safe_example =
    list_issues_safe platform open_access project_id one_query by_alice two_issues first_page
      answered
