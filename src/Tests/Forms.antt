-- ===== src/Tests/Forms.antt =====
-- The forms of the web client for an issue, over the project of the other tests.
use jira_microservices_lab.Common.{
  ◌≡◌, ◌≢◌, ◌≤◌, refl, true, codes, some, none, [], trim, length, arith,
}
use jira_microservices_lab.Domain.Errors.{ok}
use jira_microservices_lab.Domain.Issue.{bug, high}
use jira_microservices_lab.Application.Access.{require_visible_issue}
use jira_microservices_lab.Application.Plans.{change, update_plan, comment_plan}
use jira_microservices_lab.WebClient.Requests.{IssueCall, update_issue, add_comment, issue_request}
use jira_microservices_lab.WebClient.Forms.{edit_payload, submit_comment}
use jira_microservices_lab.WebClient.Forms.Saved.{filled_in, submit_edit_saved}
use jira_microservices_lab.WebClient.Forms.Commented.{submit_comment_saved}
use jira_microservices_lab.Tests.Running.{code}
use jira_microservices_lab.Tests.Data.{one_issue, first_issue, open_access, by_alice}

first_issue_shown :
    require_visible_issue open_access first_issue.id by_alice true one_issue ≡ ok first_issue
unfolding code
first_issue_shown = refl

first_version : (1 ≤ first_issue.version) × (first_issue.version ≤ 9007199254740991)
unfolding code
first_version = (omega arith, omega arith)

summary_fits : (trim (codes " Now ") ≢ []) × (length (trim (codes " Now ")) ≤ 200)
unfolding code
summary_fits = (λ h. absurd (ground arith), omega arith)

description_fits : length (trim (codes " ")) ≤ 5000
unfolding code
description_fits = omega arith

abbrev edit : IssueCall
edit =
    update_issue first_issue.id (edit_payload (filled_in (codes " Now ") (codes " ") bug high))
      first_issue.version

submit_edit_saved_example :
    update_plan open_access first_issue.id (issue_request edit).body by_alice one_issue
    ≡ ok (
        change first_issue first_issue.version (record {
          summary = trim (codes " Now ");
          description = none;
          type = bug;
          priority = high;
        }))
unfolding code
submit_edit_saved_example =
    submit_edit_saved open_access by_alice one_issue first_issue (codes " Now ") (codes " ") bug
      high edit refl first_issue_shown first_version.0 first_version.1 summary_fits.0 summary_fits.1
      description_fits

abbrev comment : IssueCall
comment = add_comment first_issue.id (codes "Done")

comment_sent : submit_comment true first_issue (some (codes " Done")) ≡ some comment
unfolding code
comment_sent = refl

submit_comment_saved_example :
    comment_plan open_access first_issue.id (issue_request comment).body by_alice one_issue
    ≡ ok (first_issue, trim (codes " Done"))
submit_comment_saved_example =
    submit_comment_saved open_access by_alice one_issue first_issue (some (codes " Done")) comment
      comment_sent first_issue_shown
