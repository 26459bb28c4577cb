-- ===== src/Repository/Listing.antt =====
-- apps/issue-service-nest/src/infrastructure/postgres-issue.repository.ts: `listIssues`, one page of
-- the issues of a project.
pub mod Filter
pub mod Pages
use jira_microservices_lab.Common.{
  ℕ, suc, ◌+◌, Text, text_eq, Option, Bool, true, false, ◌&&◌, ◌||◌, none, some, List, [], ◌∷◌,
  ◌++◌, map, keep, take, length, ltb, ◌==◌, if◌then◌else◌, sort_rows,
}
use jira_microservices_lab.Domain.Issue.{Issue, IssueStatus, status_eq}
use jira_microservices_lab.Repository.Db.{Db}
use jira_microservices_lab.Repository.Reads.{earlier}
use jira_microservices_lab.Repository.Listing.Filter.{IssueListFilter, IssueListPosition}

-- What the code relies on outside: the base64url of `Buffer` in both directions, PostgreSQL's
-- to_char of a time and its cast of a text to TIMESTAMPTZ, and its ILIKE, given the pattern and the
-- text.
pub record Platform : Type 0 where
  pub to_base64 : Text → Text
  pub from_base64 : Text → Text
  pub to_char : ℕ → Text
  pub timestamptz : Text → ℕ
  pub ilike : Text → Text → Bool

-- `q.replace(/[\\%_]/g, '\\$&')`
unfoldable pub like_escape : Text → Text
like_escape [] = []
like_escape (c ∷ s) =
    if c == b'\\' || c == b'%' || c == b'_' then b'\\' ∷ c ∷ like_escape s else c ∷ like_escape s

-- `'%' || $n || '%'`
abbrev pub like_pattern : Text → Text
like_pattern q = b'%' ∷ like_escape q ++ b'%' ∷ []

abbrev pub later : Issue → Issue → Bool
later a b = earlier b.created_at b.id a.created_at a.id

abbrev pub fits_status : Option IssueStatus → Issue → Bool
fits_status none r = true
fits_status (some s) r = status_eq s r.status

-- A column that may be NULL equals a value.
abbrev pub equals : Option Text → Text → Bool
equals none t = false
equals (some u) t = text_eq u t

-- A condition that is added only for a value that is given.
abbrev pub if_given : Option Text → (Text → Bool) → Bool
if_given none p = true
if_given (some []) p = true
if_given (some (c ∷ s)) p = p (c ∷ s)

-- `rows[rows.length - 1]`
abbrev pub last_of : List Issue → Option Issue
last_of [] = none
last_of (r ∷ []) = some r
last_of (r ∷ s ∷ rows) = last_of (s ∷ rows)

pub record IssueListPage : Type 0 where
  pub items : List Issue
  pub next : Option IssueListPosition

module _ (platform : Platform) where
  unfoldable pub matches : Text → IssueListFilter → Issue → Bool
  unfolding like_escape
  matches project_id filter r =
      text_eq r.project_id project_id
      && fits_status filter.status r
      && if_given filter.assignee_user_id (equals r.assignee_user_id)
      && if_given filter.sprint_id (equals r.sprint_id)
      && if_given filter.q (λ q. platform.ilike (like_pattern q) r.summary)

  -- (created_at, id) < ($n::timestamptz, $m::uuid)
  unfoldable pub is_after : Option IssueListPosition → Issue → Bool
  is_after none r = true
  is_after (some p) r = earlier r.created_at r.id (platform.timestamptz p.created_at) p.id

  abbrev pub position_of : Issue → IssueListPosition
  position_of r = record { created_at = platform.to_char r.created_at; id = r.id }

  abbrev next_position : Option Issue → Option IssueListPosition
  next_position none = none
  next_position (some r) = some (position_of r)

  -- The page, from the rows of the query, of which there may be one more than the limit.
  unfoldable pub page_of : ℕ → List Issue → IssueListPage
  page_of limit result =
      let rows = take limit result in
      record {
        items = rows;
        next = if ltb limit (length result) then next_position (last_of rows) else none;
      }

  unfoldable pub list_issues :
      Text → IssueListFilter → Option IssueListPosition → ℕ → Db → IssueListPage
  unfolding matches is_after page_of sort_rows
  list_issues project_id filter after limit db = page_of limit (
      take (limit + 1)
        (sort_rows later (keep (λ r. matches project_id filter r && is_after after r) db.issues)))
