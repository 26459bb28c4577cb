-- ===== src/Gateway/Adapters/Issues.antt =====
-- apps/api-gateway-nest/src/infrastructure/http-clients/issue-service.adapter.ts,
-- iam-service.adapter.ts and notification-service.adapter.ts in the same directory. The address of a
-- service comes from the environment; encodeURIComponent is a parameter.
use Prim.Native.String.{String}
use jira_microservices_lab.Common.{Text, codes, true, false, none, some, [], ◌∷◌, ◌++◌}
use jira_microservices_lab.Json.{Value, undefined}
use jira_microservices_lab.Gateway.Errors.{Outcome, discard}
use jira_microservices_lab.Gateway.Client.{
  get_method, post_method, patch_method, ClientOptions, RequestContext, of_user, Forward,
}

abbrev pub issue_client : Text → ClientOptions
issue_client base_url = record {
  service = codes "issue-service";
  base_url = base_url;
  request_error_code = codes "ISSUE_REQUEST_FAILED";
  request_error_message = codes "Issue service request failed";
  unavailable_code = codes "ISSUE_SERVICE_UNAVAILABLE";
  unavailable_message = codes "Issue service is unavailable";
  object_response_only = none;
  send_json_body = none;
}

abbrev pub iam_client : Text → ClientOptions
iam_client base_url = record {
  service = codes "iam-service";
  base_url = base_url;
  request_error_code = codes "IAM_AUTH_ERROR";
  request_error_message = codes "IAM auth request failed";
  unavailable_code = codes "IAM_SERVICE_UNAVAILABLE";
  unavailable_message = codes "IAM service is unavailable";
  object_response_only = some true;
  send_json_body = none;
}

abbrev pub notification_client : Text → ClientOptions
notification_client base_url = record {
  service = codes "notification-service";
  base_url = base_url;
  request_error_code = codes "NOTIFICATION_REQUEST_FAILED";
  request_error_message = codes "Notification service request failed";
  unavailable_code = codes "NOTIFICATION_SERVICE_UNAVAILABLE";
  unavailable_message = codes "Notification service is unavailable";
  object_response_only = none;
  send_json_body = some false;
}

-- The path of a thing by its identifier, and of what is below it.
abbrev pub path_to : String → Text → Text
path_to before id = codes before ++ id

abbrev pub path_below : String → Text → String → Text
path_below before id after = codes before ++ (id ++ codes after)

-- A query string that is forwarded as it is.
abbrev pub search_of : Text → Text
search_of [] = []
search_of (c ∷ s) = b'?' ∷ c ∷ s

module _ (forward : Forward) (encode : Text → Text) where
  abbrev pub create_issue : Text → Value → RequestContext → Outcome Value
  create_issue project_id body context =
      forward post_method (path_below "/internal/projects/" (encode project_id) "/issues") body
        (of_user context)

  abbrev pub list_issues : Text → Text → RequestContext → Outcome Value
  list_issues project_id query context =
      forward get_method
        (codes "/internal/projects/" ++ (encode project_id ++ (codes "/issues" ++ search_of query)))
        undefined (of_user context)

  abbrev pub get_issue : Text → RequestContext → Outcome Value
  get_issue issue_id context =
      forward get_method (path_to "/internal/issues/" (encode issue_id)) undefined (of_user context)

  abbrev pub update_issue : Text → Value → RequestContext → Outcome Value
  update_issue issue_id body context =
      forward patch_method (path_to "/internal/issues/" (encode issue_id)) body (of_user context)

  abbrev pub assign_issue : Text → Value → RequestContext → Outcome Value
  assign_issue issue_id body context =
      forward patch_method (path_below "/internal/issues/" (encode issue_id) "/assignee") body
        (of_user context)

  abbrev pub transition_issue : Text → Value → RequestContext → Outcome Value
  transition_issue issue_id body context =
      forward post_method (path_below "/internal/issues/" (encode issue_id) "/transitions") body
        (of_user context)

  abbrev pub add_comment : Text → Value → RequestContext → Outcome Value
  add_comment issue_id body context =
      forward post_method (path_below "/internal/issues/" (encode issue_id) "/comments") body
        (of_user context)

  abbrev pub list_comments : Text → RequestContext → Outcome Value
  list_comments issue_id context =
      forward get_method (path_below "/internal/issues/" (encode issue_id) "/comments") undefined
        (of_user context)

  abbrev pub list_history : Text → RequestContext → Outcome Value
  list_history issue_id context =
      forward get_method (path_below "/internal/issues/" (encode issue_id) "/history") undefined
        (of_user context)

  abbrev pub list_epics : Text → RequestContext → Outcome Value
  list_epics project_id context =
      forward get_method (path_below "/internal/projects/" (encode project_id) "/epics") undefined
        (of_user context)

  abbrev pub create_epic : Text → Value → RequestContext → Outcome Value
  create_epic project_id body context =
      forward post_method (path_below "/internal/projects/" (encode project_id) "/epics") body
        (of_user context)

  abbrev pub update_epic : Text → Value → RequestContext → Outcome Value
  update_epic epic_id body context =
      forward patch_method (path_to "/internal/epics/" (encode epic_id)) body (of_user context)

  abbrev pub list_sprints : Text → RequestContext → Outcome Value
  list_sprints project_id context =
      forward get_method (path_below "/internal/projects/" (encode project_id) "/sprints") undefined
        (of_user context)

  abbrev pub create_sprint : Text → Value → RequestContext → Outcome Value
  create_sprint project_id body context =
      forward post_method (path_below "/internal/projects/" (encode project_id) "/sprints") body
        (of_user context)

  abbrev pub complete_sprint : Text → RequestContext → Outcome Value
  complete_sprint sprint_id context =
      forward post_method (path_below "/internal/sprints/" (encode sprint_id) "/complete") undefined
        (of_user context)

  abbrev pub list_notifications : RequestContext → Outcome Value
  list_notifications context =
      forward get_method (codes "/internal/notifications") undefined (of_user context)

  abbrev pub mark_read : Text → RequestContext → Outcome Value
  mark_read notification_id context = discard (
      forward patch_method (path_below "/internal/notifications/" (encode notification_id) "/read")
        undefined (of_user context))

  abbrev pub mark_all_read : RequestContext → Outcome Value
  mark_all_read context =
      discard
        (forward post_method (codes "/internal/notifications/read-all") undefined (of_user context))

  abbrev pub forward_to_iam : String → Value → Text → Outcome Value
  forward_to_iam path body correlation_id =
      forward post_method (codes "/auth/" ++ codes path) body
        (record { correlation_id = correlation_id; user_id = none })
