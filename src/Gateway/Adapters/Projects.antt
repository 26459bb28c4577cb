-- ===== src/Gateway/Adapters/Projects.antt =====
-- apps/api-gateway-nest/src/infrastructure/http-clients/project-service.adapter.ts.
use jira_microservices_lab.Common.{Text, codes, true, none, some, ◌++◌}
use jira_microservices_lab.Json.{Value, undefined}
use jira_microservices_lab.Gateway.Errors.{Outcome, discard}
use jira_microservices_lab.Gateway.Client.{
  get_method, post_method, patch_method, delete_method, ClientOptions, RequestContext, of_user,
  Forward,
}
use jira_microservices_lab.Gateway.Adapters.Issues.{path_to, path_below}

abbrev pub project_client : Text → ClientOptions
project_client base_url = record {
  service = codes "project-service";
  base_url = base_url;
  request_error_code = codes "INTERNAL_ERROR";
  request_error_message = codes "Project service request failed";
  unavailable_code = codes "PROJECT_SERVICE_UNAVAILABLE";
  unavailable_message = codes "Project service is unavailable";
  object_response_only = some true;
  send_json_body = none;
}

module _ (forward : Forward) (encode : Text → Text) where
  abbrev pub create_workspace : Value → RequestContext → Outcome Value
  create_workspace body context =
      forward post_method (codes "/internal/workspaces") body (of_user context)

  abbrev pub list_workspaces : RequestContext → Outcome Value
  list_workspaces context =
      forward get_method (codes "/internal/workspaces") undefined (of_user context)

  abbrev pub create_project : Text → Value → RequestContext → Outcome Value
  create_project workspace_id body context =
      forward post_method (path_below "/internal/workspaces/" (encode workspace_id) "/projects")
        body (of_user context)

  abbrev pub list_workspace_members : Text → RequestContext → Outcome Value
  list_workspace_members workspace_id context =
      forward get_method (path_below "/internal/workspaces/" (encode workspace_id) "/members")
        undefined (of_user context)

  abbrev pub add_workspace_member : Text → Value → RequestContext → Outcome Value
  add_workspace_member workspace_id body context =
      forward post_method (path_below "/internal/workspaces/" (encode workspace_id) "/members") body
        (of_user context)

  -- The path of a member of a workspace.
  abbrev pub member_path : Text → Text → Text
  member_path workspace_id user_id =
      codes "/internal/workspaces/"
      ++ (encode workspace_id ++ (codes "/members/" ++ encode user_id))

  abbrev pub change_workspace_member_role : Text → Text → Value → RequestContext → Outcome Value
  change_workspace_member_role workspace_id user_id body context =
      forward patch_method (member_path workspace_id user_id) body (of_user context)

  abbrev pub remove_workspace_member : Text → Text → RequestContext → Outcome Value
  remove_workspace_member workspace_id user_id context =
      discard (forward delete_method (member_path workspace_id user_id) undefined (of_user context))

  abbrev pub list_projects : Text → RequestContext → Outcome Value
  list_projects workspace_id context =
      forward get_method (path_below "/internal/workspaces/" (encode workspace_id) "/projects")
        undefined (of_user context)

  abbrev pub get_project : Text → RequestContext → Outcome Value
  get_project project_id context =
      forward get_method (path_to "/internal/projects/" (encode project_id)) undefined
        (of_user context)

  abbrev pub update_project : Text → Value → RequestContext → Outcome Value
  update_project project_id body context =
      forward patch_method (path_to "/internal/projects/" (encode project_id)) body
        (of_user context)

  abbrev pub archive_project : Text → RequestContext → Outcome Value
  archive_project project_id context = discard (
      forward delete_method (path_to "/internal/projects/" (encode project_id)) undefined
        (of_user context))
