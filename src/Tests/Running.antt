-- ===== src/Tests/Running.antt =====
-- What the tests unfold to run the code.
use jira_microservices_lab.Common.{
  decimal, codes, text_eq, contains, text_lt, upper, lower, lower_unit, is_space, trim,
}
use jira_microservices_lab.Json.{get, has_own}
use jira_microservices_lab.Domain.Errors.{
  validation_error, not_found, concurrent_issue_modification, has_status,
}
use jira_microservices_lab.Domain.Values.{
  required_text, optional_text, find_named, enum_value, uuid, optional_uuid,
}
use jira_microservices_lab.Domain.Issue.{assert_transition}
use jira_microservices_lab.Repository.Table.{find_row, update_where}
use jira_microservices_lab.Repository.Recipients.{recipients}
use jira_microservices_lab.Repository.Statements
use jira_microservices_lab.Repository.Writes
use jira_microservices_lab.Repository.Outbox.{
  claim_pending_events, mark_events_published, record_publish_failure, outbox_status,
}
use jira_microservices_lab.Repository.Steps.{step, run}
use jira_microservices_lab.Application.Access.{require_visible_issue, require_writable_project}
use jira_microservices_lab.Application.Input.{
  body, expected_version, assert_expected_version, assert_core_patch_fields,
  has_core_patch_mutation, assert_planning_links,
}
use jira_microservices_lab.Application.Plans.{
  patched, create_plan, update_plan, assign_plan, transition_plan, comment_plan,
}
use jira_microservices_lab.Application.Handlers
use jira_microservices_lab.Application.Planning.{completion_plan, complete_sprint}
use jira_microservices_lab.Repository.Planning.{create_sprint, find_sprint, find_epic}
use jira_microservices_lab.Repository.Planning
use jira_microservices_lab.Repository.Planning.Invariant.{plan_run}
use jira_microservices_lab.Application.ListQuery.{
  is_position_time, parse_filter, parse_issue_list_query, encode_issue_cursor,
}
use jira_microservices_lab.Application.Listing
use jira_microservices_lab.Repository.Listing as Rows
use jira_microservices_lab.Repository.Listing.Pages.{listed}
use jira_microservices_lab.WebClient.Issues
use jira_microservices_lab.Publisher.{publish_batch}
use jira_microservices_lab.Presentation.{request_context}
use jira_microservices_lab.Repository.Reads

-- Unfolding it unfolds the code.
unfoldable pub code : Unit {0}
unfolding decimal codes text_eq contains text_lt upper lower lower_unit is_space trim get has_own
    validation_error not_found concurrent_issue_modification has_status required_text optional_text
    find_named enum_value uuid optional_uuid assert_transition find_row update_where recipients
    Statements.bump Statements.next_version Statements.update_with_version Statements.insert_issue
    Statements.insert_comment Writes.create_issue Writes.update_issue Writes.assign_issue
    Writes.transition_issue Writes.add_comment claim_pending_events mark_events_published
    record_publish_failure outbox_status step run require_visible_issue require_writable_project
    body expected_version assert_expected_version assert_core_patch_fields has_core_patch_mutation
    assert_planning_links patched create_plan update_plan assign_plan transition_plan comment_plan
    Handlers.create_issue Handlers.update_issue Handlers.assign_issue Handlers.transition_issue
    Handlers.add_comment Handlers.get_issue completion_plan complete_sprint create_sprint
    find_sprint find_epic Planning.complete_sprint Planning.create_epic plan_run publish_batch
    request_context Reads.list_comments Reads.list_history Handlers.list_comments
    Handlers.list_history is_position_time parse_filter parse_issue_list_query encode_issue_cursor
    Listing.list_issues Rows.list_issues listed Issues.params Issues.list_issues
code = tt
