-- ===== src/Presentation/Routes.antt =====
-- apps/issue-service-nest/src/presentation/issues.controller.ts and planning.controller.ts in the same
-- directory: the routes of the issue service. What a handler does is named by the call that it makes
-- of an application service.
use Prim.Native.String.{String}
use jira_microservices_lab.Common.{Text, codes, List, [], ◌∷◌, ◌++◌}
use jira_microservices_lab.Json.{Value, Fields}
use jira_microservices_lab.Domain.Errors.{Result, ok, ◌>>=◌}
use jira_microservices_lab.Application.Access.{RequestContext}
use jira_microservices_lab.Presentation.{Header, request_context}
use jira_microservices_lab.Gateway.Client.{Method, get_method, post_method, patch_method}

-- The methods of IssueApplicationService and PlanningApplicationService.
pub data ServiceCall : Type 0 where
  create_issue : Text → Value → RequestContext → ServiceCall
  list_issues : Text → Fields → RequestContext → ServiceCall
  get_issue : Text → RequestContext → ServiceCall
  update_issue : Text → Value → RequestContext → ServiceCall
  assign_issue : Text → Value → RequestContext → ServiceCall
  transition_issue : Text → Value → RequestContext → ServiceCall
  add_comment : Text → Value → RequestContext → ServiceCall
  list_comments : Text → RequestContext → ServiceCall
  list_history : Text → RequestContext → ServiceCall
  list_epics : Text → RequestContext → ServiceCall
  create_epic : Text → Value → RequestContext → ServiceCall
  update_epic : Text → Value → RequestContext → ServiceCall
  list_sprints : Text → RequestContext → ServiceCall
  create_sprint : Text → Value → RequestContext → ServiceCall
  complete_sprint : Text → RequestContext → ServiceCall

-- A part of the pattern of a route: a word, or a parameter by its name.
pub data Segment : Type 0 where
  word : String → Segment
  param : String → Segment

abbrev pub text_of_segment : (String → Text) → Segment → Text
text_of_segment params (word w) = codes w
text_of_segment params (param name) = params name

-- The path of a pattern, for given texts of the parameters.
abbrev pub path_of : (String → Text) → List Segment → Text
path_of params [] = []
path_of params (g ∷ []) = b'/' ∷ text_of_segment params g
path_of params (g ∷ h ∷ gs) = b'/' ∷ (text_of_segment params g ++ path_of params (h ∷ gs))

-- A request, with what the framework decodes of it; `fresh` is the value of `randomUUID()`.
pub record IssueRequest : Type 0 where
  pub params : String → Text
  pub query : Fields
  pub body : Value
  pub user_header : Header
  pub correlation_header : Header
  pub fresh : Text

pub record IssueRoute : Type 0 where
  pub method : Method
  pub pattern : List Segment
  pub handle : IssueRequest → Result ServiceCall

-- The context of the request, which is made before the call.
abbrev pub in_context : IssueRequest → (RequestContext → ServiceCall) → Result ServiceCall
in_context r call =
    request_context r.fresh r.user_header r.correlation_header >>= λ context. ok (call context)

abbrev pub route :
    Method → List Segment → (IssueRequest → RequestContext → ServiceCall) → IssueRoute
route method pattern call = record {
  method = method;
  pattern = word "internal" ∷ pattern;
  handle = λ r. in_context r (call r);
}

abbrev pub issue_routes : List IssueRoute
issue_routes =
    route post_method (word "projects" ∷ param "projectId" ∷ word "issues" ∷ [])
      (λ r. create_issue (r.params "projectId") r.body)
    ∷ route get_method (word "projects" ∷ param "projectId" ∷ word "issues" ∷ [])
        (λ r. list_issues (r.params "projectId") r.query)
    ∷ route get_method (word "issues" ∷ param "issueId" ∷ []) (λ r. get_issue (r.params "issueId"))
    ∷ route patch_method (word "issues" ∷ param "issueId" ∷ [])
        (λ r. update_issue (r.params "issueId") r.body)
    ∷ route patch_method (word "issues" ∷ param "issueId" ∷ word "assignee" ∷ [])
        (λ r. assign_issue (r.params "issueId") r.body)
    ∷ route post_method (word "issues" ∷ param "issueId" ∷ word "transitions" ∷ [])
        (λ r. transition_issue (r.params "issueId") r.body)
    ∷ route post_method (word "issues" ∷ param "issueId" ∷ word "comments" ∷ [])
        (λ r. add_comment (r.params "issueId") r.body)
    ∷ route get_method (word "issues" ∷ param "issueId" ∷ word "comments" ∷ [])
        (λ r. list_comments (r.params "issueId"))
    ∷ route get_method (word "issues" ∷ param "issueId" ∷ word "history" ∷ [])
        (λ r. list_history (r.params "issueId"))
    ∷ []

abbrev pub planning_routes : List IssueRoute
planning_routes =
    route get_method (word "projects" ∷ param "projectId" ∷ word "epics" ∷ [])
      (λ r. list_epics (r.params "projectId"))
    ∷ route post_method (word "projects" ∷ param "projectId" ∷ word "epics" ∷ [])
        (λ r. create_epic (r.params "projectId") r.body)
    ∷ route patch_method (word "epics" ∷ param "epicId" ∷ [])
        (λ r. update_epic (r.params "epicId") r.body)
    ∷ route get_method (word "projects" ∷ param "projectId" ∷ word "sprints" ∷ [])
        (λ r. list_sprints (r.params "projectId"))
    ∷ route post_method (word "projects" ∷ param "projectId" ∷ word "sprints" ∷ [])
        (λ r. create_sprint (r.params "projectId") r.body)
    ∷ route post_method (word "sprints" ∷ param "sprintId" ∷ word "complete" ∷ [])
        (λ r. complete_sprint (r.params "sprintId"))
    ∷ []
