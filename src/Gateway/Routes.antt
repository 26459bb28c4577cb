-- ===== src/Gateway/Routes.antt =====
-- apps/api-gateway-nest/src/presentation/issues/issues.controller.ts: the routes of the gateway for
-- issues, epics and sprints. The guard has set the user before a handler runs.
use Prim.Native.String.{String}
use jira_microservices_lab.Common.{Text, ◌==◌, if◌then◌else◌, List, [], ◌∷◌}
use jira_microservices_lab.Json.{Value}
use jira_microservices_lab.Presentation.Routes.{Segment, word, param}
use jira_microservices_lab.Gateway.Errors.{Outcome}
use jira_microservices_lab.Gateway.Client.{
  Method, get_method, post_method, patch_method, RequestContext, Forward,
}
use jira_microservices_lab.Gateway.Guard.{GatewayUser}
use jira_microservices_lab.Gateway.Adapters.Issues

-- A request, with the identifier that `getCorrelationId` yields for it.
pub record GatewayRequest : Type 0 where
  pub params : String → Text
  pub url : Text
  pub body : Value
  pub user : GatewayUser
  pub correlation_id : Text

-- What follows the first question mark.
abbrev pub query_of : Text → Text
query_of [] = []
query_of (c ∷ s) = if c == b'?' then s else query_of s

abbrev pub context : GatewayRequest → RequestContext
context r = record { user_id = r.user.id; correlation_id = r.correlation_id }

pub record GatewayRoute : Type 0 where
  pub method : Method
  pub pattern : List Segment
  pub handle : GatewayRequest → Outcome Value

abbrev pub gateway_route :
    Method → List Segment → (GatewayRequest → RequestContext → Outcome Value) → GatewayRoute
gateway_route method pattern call = record {
  method = method;
  pattern = word "api" ∷ pattern;
  handle = λ r. call r (context r);
}

module _ (forward : Forward) (encode : Text → Text) where
  abbrev pub gateway_routes : List GatewayRoute
  gateway_routes =
      gateway_route post_method (word "projects" ∷ param "projectId" ∷ word "issues" ∷ [])
        (λ r. Issues.create_issue forward encode (r.params "projectId") r.body)
      ∷ gateway_route get_method (word "projects" ∷ param "projectId" ∷ word "issues" ∷ [])
          (λ r. Issues.list_issues forward encode (r.params "projectId") (query_of r.url))
      ∷ gateway_route get_method (word "issues" ∷ param "issueId" ∷ [])
          (λ r. Issues.get_issue forward encode (r.params "issueId"))
      ∷ gateway_route patch_method (word "issues" ∷ param "issueId" ∷ [])
          (λ r. Issues.update_issue forward encode (r.params "issueId") r.body)
      ∷ gateway_route patch_method (word "issues" ∷ param "issueId" ∷ word "assignee" ∷ [])
          (λ r. Issues.assign_issue forward encode (r.params "issueId") r.body)
      ∷ gateway_route post_method (word "issues" ∷ param "issueId" ∷ word "transitions" ∷ [])
          (λ r. Issues.transition_issue forward encode (r.params "issueId") r.body)
      ∷ gateway_route post_method (word "issues" ∷ param "issueId" ∷ word "comments" ∷ [])
          (λ r. Issues.add_comment forward encode (r.params "issueId") r.body)
      ∷ gateway_route get_method (word "issues" ∷ param "issueId" ∷ word "comments" ∷ [])
          (λ r. Issues.list_comments forward encode (r.params "issueId"))
      ∷ gateway_route get_method (word "issues" ∷ param "issueId" ∷ word "history" ∷ [])
          (λ r. Issues.list_history forward encode (r.params "issueId"))
      ∷ gateway_route get_method (word "projects" ∷ param "projectId" ∷ word "epics" ∷ [])
          (λ r. Issues.list_epics forward encode (r.params "projectId"))
      ∷ gateway_route post_method (word "projects" ∷ param "projectId" ∷ word "epics" ∷ [])
          (λ r. Issues.create_epic forward encode (r.params "projectId") r.body)
      ∷ gateway_route patch_method (word "epics" ∷ param "epicId" ∷ [])
          (λ r. Issues.update_epic forward encode (r.params "epicId") r.body)
      ∷ gateway_route get_method (word "projects" ∷ param "projectId" ∷ word "sprints" ∷ [])
          (λ r. Issues.list_sprints forward encode (r.params "projectId"))
      ∷ gateway_route post_method (word "projects" ∷ param "projectId" ∷ word "sprints" ∷ [])
          (λ r. Issues.create_sprint forward encode (r.params "projectId") r.body)
      ∷ gateway_route post_method (word "sprints" ∷ param "sprintId" ∷ word "complete" ∷ [])
          (λ r. Issues.complete_sprint forward encode (r.params "sprintId"))
      ∷ []
