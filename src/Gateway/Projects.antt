-- ===== src/Gateway/Projects.antt =====
-- apps/api-gateway-nest/src/services/projects.service.ts and
-- apps/api-gateway-nest/src/presentation/projects/projects.controller.ts, but for the request to add
-- a member, which is limited.
pub mod Routes
use jira_microservices_lab.Common.{Text, codes, Option, none, some, List, [], ◌∷◌}
use jira_microservices_lab.Json.{Value}
use jira_microservices_lab.Gateway.Errors.{Outcome, returns, throws}
use jira_microservices_lab.Gateway.Client.{RequestContext, Forward}
use jira_microservices_lab.Gateway.Services.{user_context}
use jira_microservices_lab.Gateway.Adapters.Projects as Adapter

-- Go on with the context of a user, or throw.
abbrev pub with_context : Outcome RequestContext → (RequestContext → Outcome Value) → Outcome Value
with_context (returns context) call = call context
with_context (throws t) call = throws t

module _ (forward : Forward) (encode : Text → Text) where
  abbrev pub create_workspace : Value → Option Text → Text → Outcome Value
  create_workspace body user_id correlation_id =
      with_context (user_context user_id correlation_id)
        (Adapter.create_workspace forward encode body)

  abbrev pub list_workspaces : Option Text → Text → Outcome Value
  list_workspaces user_id correlation_id =
      with_context (user_context user_id correlation_id) (Adapter.list_workspaces forward encode)

  abbrev pub create_project : Text → Value → Option Text → Text → Outcome Value
  create_project workspace_id body user_id correlation_id =
      with_context (user_context user_id correlation_id)
        (Adapter.create_project forward encode workspace_id body)

  abbrev pub list_workspace_members : Text → Option Text → Text → Outcome Value
  list_workspace_members workspace_id user_id correlation_id =
      with_context (user_context user_id correlation_id)
        (Adapter.list_workspace_members forward encode workspace_id)

  abbrev pub change_workspace_member_role : Text → Text → Value → Option Text → Text → Outcome Value
  change_workspace_member_role workspace_id member_id body user_id correlation_id =
      with_context (user_context user_id correlation_id)
        (Adapter.change_workspace_member_role forward encode workspace_id member_id body)

  abbrev pub remove_workspace_member : Text → Text → Option Text → Text → Outcome Value
  remove_workspace_member workspace_id member_id user_id correlation_id =
      with_context (user_context user_id correlation_id)
        (Adapter.remove_workspace_member forward encode workspace_id member_id)

  abbrev pub list_projects : Text → Option Text → Text → Outcome Value
  list_projects workspace_id user_id correlation_id =
      with_context (user_context user_id correlation_id)
        (Adapter.list_projects forward encode workspace_id)

  abbrev pub get_project : Text → Option Text → Text → Outcome Value
  get_project project_id user_id correlation_id =
      with_context (user_context user_id correlation_id)
        (Adapter.get_project forward encode project_id)

  abbrev pub update_project : Text → Value → Option Text → Text → Outcome Value
  update_project project_id body user_id correlation_id =
      with_context (user_context user_id correlation_id)
        (Adapter.update_project forward encode project_id body)

  abbrev pub archive_project : Text → Option Text → Text → Outcome Value
  archive_project project_id user_id correlation_id =
      with_context (user_context user_id correlation_id)
        (Adapter.archive_project forward encode project_id)
