-- ===== src/Repository/Payloads.antt =====
-- apps/issue-service-nest/src/infrastructure/postgres-issue.repository.ts: the JSON values that the
-- operations store with a history row and with an event.
use Prim.Native.String.{String}
use jira_microservices_lab.Common.{Text, codes, Option, some, List, [], ◌∷◌, map, take}
use jira_microservices_lab.Json.{Value, str, obj, arr, end, field, items_of, nullable}
use jira_microservices_lab.Domain.Issue.{
  Issue, IssueComment, IssueStatus, ValidatedIssueTransition, type_name, priority_name, status_name,
}
use jira_microservices_lab.Repository.Recipients.{recipients}

abbrev text : String → Value
text s = str (codes s)

abbrev texts : List Text → Value
texts ts = arr (items_of (map str ts))

unfoldable pub created_value : Issue → Value
created_value issue = obj (
    field "key" (str issue.key) (
      field "summary" (str issue.summary) (
        field "type" (text (type_name issue.type)) (
          field "priority" (text (priority_name issue.priority)) (
            field "status" (text (status_name issue.status))
              (field "assigneeUserId" (nullable issue.assignee_user_id) end))))))

unfoldable pub created_payload : Issue → Text → Value
created_payload issue actor_user_id = obj (
    field "issueKey" (str issue.key) (
      field "summary" (str issue.summary) (
        field "reporterUserId" (str issue.reporter_user_id) (
          field "assigneeUserId" (nullable issue.assignee_user_id) (
            field "recipientUserIds"
              (texts (recipients (issue.assignee_user_id ∷ []) actor_user_id)) end)))))

unfoldable pub details_value : Issue → Value
details_value issue = obj (
    field "summary" (str issue.summary) (
      field "description" (nullable issue.description) (
        field "type" (text (type_name issue.type))
          (field "priority" (text (priority_name issue.priority)) end))))

unfoldable pub updated_payload : Issue → Issue → Text → Value
updated_payload issue updated actor_user_id = obj (
    field "issueKey" (str updated.key) (
      field "changes"
        (obj (field "from" (details_value issue) (field "to" (details_value updated) end)))
        (field "recipientUserIds"
          (texts (
            recipients (some updated.reporter_user_id ∷ updated.assignee_user_id ∷ [])
              actor_user_id))
          end)))

unfoldable pub assignee_value : Option Text → Value
assignee_value assignee_user_id = obj (field "assigneeUserId" (nullable assignee_user_id) end)

unfoldable pub assigned_payload : Issue → Issue → Option Text → Text → Value
assigned_payload issue updated assignee_user_id actor_user_id = obj (
    field "issueKey" (str updated.key) (
      field "previousAssigneeUserId" (nullable issue.assignee_user_id) (
        field "assigneeUserId" (nullable assignee_user_id) (
          field "recipientUserIds"
            (texts
              (recipients (some updated.reporter_user_id ∷ assignee_user_id ∷ []) actor_user_id))
            end))))

unfoldable pub status_object : IssueStatus → Value
status_object status = obj (field "status" (text (status_name status)) end)

unfoldable pub transitioned_payload : Issue → ValidatedIssueTransition → Text → Value
transitioned_payload updated transition actor_user_id = obj (
    field "issueKey" (str updated.key) (
      field "fromStatus" (text (status_name transition.from)) (
        field "toStatus" (text (status_name transition.to)) (
          field "recipientUserIds"
            (texts (
              recipients (some updated.reporter_user_id ∷ updated.assignee_user_id ∷ [])
                actor_user_id))
            end))))

unfoldable pub comment_value : IssueComment → Value
comment_value comment = obj (field "commentId" (str comment.id) end)

unfoldable pub commented_payload : Issue → IssueComment → Text → Text → Value
commented_payload issue comment author_user_id body = obj (
    field "issueKey" (str issue.key) (
      field "commentId" (str comment.id) (
        field "commentPreview" (str (take 160 body)) (
          field "recipientUserIds"
            (texts (
              recipients (some issue.reporter_user_id ∷ issue.assignee_user_id ∷ [])
                author_user_id))
            end))))
