-- ===== src/WebClient/Issues.antt =====
-- apps/web-client/src/features/issue/api.ts: the list of the issues of a project, which is read page
-- by page.
pub mod Queries
pub mod Complete
use Prim.Native.String.{String}
use jira_microservices_lab.Common.{
  ℕ, zero, suc, Text, codes, Option, none, some, List, [], ◌∷◌, ◌++◌,
}
use jira_microservices_lab.Json.{Fields, end, field, str}
use jira_microservices_lab.Domain.Errors.{Result, ok, err}
use jira_microservices_lab.Domain.Issue.{Issue, IssueStatus, status_name}
use jira_microservices_lab.Application.Listing.{IssueList}

pub record IssueListFilters : Type 0 where
  pub status : Option IssueStatus
  pub assignee_user_id : Option Text
  pub sprint_id : Option Text
  pub q : Option Text

-- A parameter that is left out when it is undefined.
abbrev pub add : String → Option Text → Fields → Fields
add name none fs = fs
add name (some t) fs = field name (str t) fs

abbrev pub status_text : Option IssueStatus → Option Text
status_text none = none
status_text (some s) = some (codes (status_name s))

-- ISSUE_PAGE_SIZE, as a query string carries it.
abbrev pub issue_page_size : Text
issue_page_size = codes "50"

-- `cursor ? … : …`: a cursor that is there and not empty.
abbrev pub truthy : Option Text → Option Text
truthy none = none
truthy (some []) = none
truthy (some (c ∷ s)) = some (c ∷ s)

unfoldable pub params : IssueListFilters → Option Text → Fields
params filters cursor = add "status" (status_text filters.status) (
    add "assigneeUserId" filters.assignee_user_id (
      add "sprintId" filters.sprint_id (
        add "q" filters.q
          (field "limit" (str issue_page_size) (add "cursor" (truthy cursor) end)))))

-- `issues.push(...page.items)`, before what the further rounds find.
abbrev pub with_items : List Issue → Option (Result (List Issue)) → Option (Result (List Issue))
with_items items none = none
with_items items (some (ok issues)) = some (ok (items ++ issues))
with_items items (some (err e)) = some (err e)

-- The loop goes on while a page has a cursor.
abbrev pub after_page :
    (Text → Option (Result (List Issue))) → List Issue → Option Text → Option (Result (List Issue))
after_page continue items none = some (ok items)
after_page continue items (some c) = with_items items (continue c)

abbrev pub after_answer :
    (Text → Option (Result (List Issue))) → Result IssueList → Option (Result (List Issue))
after_answer continue (err e) = some (err e)
after_answer continue (ok page) = after_page continue page.items (truthy page.next_cursor)

-- The loop: `get` is the request to the gateway, which sends it on to the issue service; `none`
-- means that the fuel did not suffice.
module _ (get : Fields → Result IssueList) (filters : IssueListFilters) where
  unfoldable pub list_issues_from : ℕ → Option Text → Option (Result (List Issue))
  list_issues_from zero cursor = none
  list_issues_from (suc fuel) cursor =
      after_answer (λ c. list_issues_from fuel (some c)) (get (params filters cursor))

  unfoldable pub list_issues : ℕ → Option (Result (List Issue))
  unfolding list_issues_from
  list_issues fuel = list_issues_from fuel none
