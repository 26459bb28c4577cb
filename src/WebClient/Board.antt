-- ===== src/WebClient/Board.antt =====
-- apps/web-client/src/features/issue/components/Board/Board.tsx: what the board shows, and the moves
-- that it offers. `toLowerCase` is a parameter; what is drawn around the issues is left out.
pub mod Moves
pub mod Columns
use Prim.Native.String.{String}
use jira_microservices_lab.Common.{
  ℕ, Text, codes, Option, none, some, Bool, true, false, List, [], ◌∷◌, ◌++◌, ◌&&◌, ◌==◌, keep,
  trim, text_eq, includes_text, if◌then◌else◌,
}
use jira_microservices_lab.Domain.Issue.{
  Issue, IssueStatus, todo, in_progress, done, IssuePriority, low, medium, high, critical,
  status_eq,
}
use jira_microservices_lab.WebClient.ApiError.{
  RequestError, get_api_error_code, get_api_error_message,
}
use jira_microservices_lab.WebClient.Requests.{IssueCall, transition_issue}

abbrev pub columns : List (IssueStatus × String)
columns = (todo, "To do") ∷ (in_progress, "In progress") ∷ (done, "Done") ∷ []

pub data Direction : Type 0 where
  left right : Direction

pub record Move : Type 0 where
  pub direction : Direction
  pub status : IssueStatus

abbrev move_to : Direction → IssueStatus → Move
move_to direction status = record { direction = direction; status = status }

unfoldable pub valid_moves : IssueStatus → List Move
valid_moves todo = move_to right in_progress ∷ []
valid_moves in_progress = move_to left todo ∷ move_to right done ∷ []
valid_moves done = move_to left in_progress ∷ []

abbrev pub priority_eq : IssuePriority → IssuePriority → Bool
priority_eq low low = true
priority_eq medium medium = true
priority_eq high high = true
priority_eq critical critical = true
priority_eq _ _ = false

-- `priority === "all" || issue.priority === priority`, where `none` is "all".
abbrev pub fits_priority : Option IssuePriority → Issue → Bool
fits_priority none issue = true
fits_priority (some p) issue = priority_eq issue.priority p

module _ (lower_case : Text → Text) where
  unfoldable pub visible_issues : Text → Option IssuePriority → List Issue → List Issue
  visible_issues query priority issues =
      keep
        (λ issue.
          fits_priority priority issue
          && includes_text (lower_case (issue.key ++ b' ' ∷ issue.summary))
              (lower_case (trim query)))
        issues

unfoldable pub column_issues : IssueStatus → List Issue → List Issue
column_issues column issues = keep (λ issue. status_eq issue.status column) issues

-- The request of a move; a project that is not writable gets none.
abbrev pub move : Bool → Issue → IssueStatus → Option IssueCall
move false issue status = none
move true issue status = some (transition_issue issue.id status issue.version)

abbrev message_of_code : Option Text → Text → Text
message_of_code none other = other
message_of_code (some code) other =
    if text_eq code (codes "CONCURRENT_ISSUE_MODIFICATION")
    then codes "Latest Issue data was reloaded."
    else if text_eq code (codes "INVALID_ISSUE_TRANSITION")
    then codes "Action is no longer valid. Latest Issue data was reloaded."
    else if text_eq code (codes "PROJECT_ARCHIVED")
    then codes "Project is read-only."
    else other

unfoldable pub transition_error_message : RequestError → Text
transition_error_message error = message_of_code (get_api_error_code error) (
    get_api_error_message error
      (codes "Could not move the issue. Check your connection and try again."))
