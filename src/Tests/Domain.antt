-- ===== src/Tests/Domain.antt =====
-- The validators and the workflow at concrete values.
use jira_microservices_lab.Common.{◌≡◌, ◌↔◌, refl, Text, codes}
use jira_microservices_lab.Json.{Value, str}
use jira_microservices_lab.Domain.Errors.{ok}
use jira_microservices_lab.Domain.Values.{required_text, enum_value, uuid}
use jira_microservices_lab.Domain.Issue.{
  todo, in_progress, ValidatedIssueTransition, assert_transition, issue_statuses, issue_status_name,
}
use jira_microservices_lab.Domain.Issue.Workflow.{Edge, assert_transition_iff}
use jira_microservices_lab.Tests.Running.{code}

abbrev starting : ValidatedIssueTransition
starting = record { from = todo; to = in_progress }

starting_accepted : assert_transition todo in_progress ≡ ok starting
unfolding code
starting_accepted = refl

assert_transition_iff_example :
    (assert_transition todo in_progress ≡ ok starting)
    ↔ (Edge todo in_progress × (starting.from ≡ todo) × (starting.to ≡ in_progress))
assert_transition_iff_example = assert_transition_iff todo in_progress starting

abbrev padded : Value
padded = str (codes " Fix it ")

abbrev normal : Text
normal = codes "Fix it"

padded_accepted : required_text padded "summary" 200 ≡ ok normal
unfolding code
padded_accepted = refl

abbrev upper_uuid : Value
upper_uuid = str (codes "BBBBBBBB-bbbb-4bbb-8bbb-bbbbbbbbbbbb")

abbrev lower_uuid : Text
lower_uuid = codes "bbbbbbbb-bbbb-4bbb-8bbb-bbbbbbbbbbbb"

uuid_accepted : uuid upper_uuid "issueId" ≡ ok lower_uuid
unfolding code
uuid_accepted = refl

abbrev spelled : Value
spelled = str (codes " in_progress")

status_accepted : enum_value spelled "status" issue_statuses ≡ ok in_progress
unfolding code
status_accepted = refl
