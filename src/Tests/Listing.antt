-- ===== src/Tests/Listing.antt =====
-- The cursor of the list of issues. The stand-in for `Buffer` leaves the text as it is.
use jira_microservices_lab.Common.{◌≡◌, refl, Text, codes, lower, true}
use jira_microservices_lab.Domain.Errors.{ok}
use jira_microservices_lab.Domain.Values.{is_uuid}
use jira_microservices_lab.Repository.Listing.Filter.{IssueListPosition}
use jira_microservices_lab.Application.ListQuery.{
  is_position_time, encode_issue_cursor, decode_issue_cursor,
}
use jira_microservices_lab.Application.ListQuery.Cursor.{decode_issue_cursor-encode_issue_cursor}
use jira_microservices_lab.Tests.Running.{code}
use jira_microservices_lab.Tests.Data.{issue_id}

abbrev same : Text → Text
same t = t

abbrev position : IssueListPosition
position = record { created_at = codes "2024-02-29T23:59:59.123456Z"; id = issue_id }

position_time : is_position_time position.created_at ≡ true
unfolding code
position_time = refl

position_id : is_uuid position.id ≡ true
unfolding code
position_id = refl

position_lower : lower position.id ≡ position.id
unfolding code
position_lower = refl

decode_issue_cursor-encode_issue_cursor_example :
    decode_issue_cursor same same (encode_issue_cursor same same position) ≡ ok position
decode_issue_cursor-encode_issue_cursor_example =
    decode_issue_cursor-encode_issue_cursor same same position refl position_time position_id
      position_lower
