-- ===== src/WebClient/Requests/Projects.antt =====
-- apps/web-client/src/features/project/api.ts: the requests for workspaces and projects, against
-- apps/api-gateway-nest/src/presentation/projects/projects.controller.ts.
use Prim.Native.String.{String}
use text.Mathlib.Text.{◌==◌ as str_eq}
use jira_microservices_lab.Common.{
  ℕ, ◌≡◌, true, refl, Text, codes, Option, none, some, [], ◌∷◌, ◌++◌, if◌then◌else◌,
}
use jira_microservices_lab.Json.{Value, Fields, undefined, str, obj, end, field}
use jira_microservices_lab.Presentation.Routes.{word, param, path_of}
use jira_microservices_lab.Gateway.Errors.{Outcome}
use jira_microservices_lab.Gateway.Client.{get_method, delete_method, Forward}
use jira_microservices_lab.Gateway.Projects
use jira_microservices_lab.Gateway.Projects.Routes.{ProjectRoute, project_routes}
use jira_microservices_lab.WebClient.Requests.{
  HttpCall, IssueCall, nothing, whole, under, http_get, http_post, http_patch, url_of,
}
use jira_microservices_lab.WebClient.Requests.Served.{
  get_elem?, named, PathReader, ReadsPlain, is_plain, id_of, reads_at, reads_below, IsServed,
  issue_request-IsServed,
}

-- The functions of api.ts, but that which adds a member.
pub data ProjectCall : Type 0 where
  list_workspaces : ProjectCall
  create_workspace : Fields → ProjectCall
  list_projects : Text → ProjectCall
  create_project : Text → Fields → ProjectCall
  get_project : Text → ProjectCall
  update_project : Text → Fields → ProjectCall
  archive_project : Text → ProjectCall
  list_workspace_members : Text → ProjectCall
  change_workspace_member_role : Text → Text → Text → ProjectCall
  remove_workspace_member : Text → Text → ProjectCall

abbrev http_delete : Text → HttpCall
http_delete url = record {
  method = delete_method;
  url = url;
  query = end;
  body = undefined;
  answer = nothing;
}

abbrev member_url : Text → Text → Text
member_url workspace_id user_id =
    codes "/api/workspaces/" ++ (workspace_id ++ (codes "/members/" ++ user_id))

abbrev pub project_request : ProjectCall → HttpCall
project_request list_workspaces = http_get (codes "/api/workspaces") "items"
project_request (create_workspace payload) =
    http_post (codes "/api/workspaces") (obj payload) (under "workspace")
project_request (list_projects id) = http_get (url_of "/api/workspaces/" id "/projects") "items"
project_request (create_project id payload) =
    http_post (url_of "/api/workspaces/" id "/projects") (obj payload) (under "project")
project_request (get_project id) = record {
  method = get_method;
  url = codes "/api/projects/" ++ id;
  query = end;
  body = undefined;
  answer = whole;
}
project_request (update_project id payload) =
    http_patch (codes "/api/projects/" ++ id) (obj payload) (under "project")
project_request (archive_project id) = http_delete (codes "/api/projects/" ++ id)
project_request (list_workspace_members id) =
    http_get (url_of "/api/workspaces/" id "/members") "items"
project_request (change_workspace_member_role id user_id role) =
    http_patch (member_url id user_id) (obj (field "role" (str role) end)) nothing
project_request (remove_workspace_member id user_id) = http_delete (member_url id user_id)

abbrev pub add_member_request : Text → Fields → HttpCall
add_member_request workspace_id payload =
    http_post (url_of "/api/workspaces/" workspace_id "/members") (obj payload) nothing

-- The parameters of a path that has two.
abbrev pub both : Text → Text → String → Text
both workspace_id user_id name =
    if str_eq name "workspaceId" then workspace_id else named "userId" user_id name

-- As for the routes of issues.
abbrev pub ServesProject :
    PathReader → Option ProjectRoute → HttpCall → (Option Text → Text → Outcome Value) → Type 0
ServesProject read none call meant = ⊥
ServesProject read (some g) call meant =
    (params : String → Text) × (g.method ≡ call.method)
    × (read (word "api" ∷ g.pattern) call.url ≡ some params)
    × ((user_id : Option Text) (correlation_id : Text)
        → g.handle (record { params = params; body = call.body; correlation_id = correlation_id })
            user_id
          ≡ meant user_id correlation_id)

-- The identifiers that a function puts into its path are plain.
abbrev pub HasPlain : ProjectCall → Type 0
HasPlain list_workspaces = Unit {0}
HasPlain (create_workspace payload) = Unit {0}
HasPlain (list_projects id) = is_plain id ≡ true
HasPlain (create_project id payload) = is_plain id ≡ true
HasPlain (get_project id) = is_plain id ≡ true
HasPlain (update_project id payload) = is_plain id ≡ true
HasPlain (archive_project id) = is_plain id ≡ true
HasPlain (list_workspace_members id) = is_plain id ≡ true
HasPlain (change_workspace_member_role id user_id role) =
    (is_plain id ≡ true) × (is_plain user_id ≡ true)
HasPlain (remove_workspace_member id user_id) = (is_plain id ≡ true) × (is_plain user_id ≡ true)

module _ (forward : Forward) (encode : Text → Text) where
  -- The operation of ProjectsService that a function of the web client is for.
  abbrev pub project_call : ProjectCall → Value → Option Text → Text → Outcome Value
  project_call list_workspaces body = Projects.list_workspaces forward encode
  project_call (create_workspace payload) body = Projects.create_workspace forward encode body
  project_call (list_projects id) body = Projects.list_projects forward encode id
  project_call (create_project id payload) body = Projects.create_project forward encode id body
  project_call (get_project id) body = Projects.get_project forward encode id
  project_call (update_project id payload) body = Projects.update_project forward encode id body
  project_call (archive_project id) body = Projects.archive_project forward encode id
  project_call (list_workspace_members id) body = Projects.list_workspace_members forward encode id
  project_call (change_workspace_member_role id user_id role) body =
      Projects.change_workspace_member_role forward encode id user_id body
  project_call (remove_workspace_member id user_id) body =
      Projects.remove_workspace_member forward encode id user_id

  abbrev pub IsServedProject : PathReader → ProjectCall → Type 0
  IsServedProject read call =
      (n : ℕ) × ServesProject read (get_elem? (project_routes forward encode) n)
        (project_request call) (project_call call (project_request call).body)

module _ (forward : Forward) (encode : Text → Text) (read : PathReader)
    (reads : ReadsPlain read) where
  reads_word :
      (w : String)
      → is_plain (codes w) ≡ true
      → (params : String → Text) × (read
            (word "api" ∷ word w ∷ [])
            (path_of (λ name. []) (word "api" ∷ word w ∷ []))
          ≡ some params)
  unfolding codes
  reads_word w p =
      let (params, e, same) = reads (word "api" ∷ word w ∷ []) (λ name. []) (refl, (p, tt)) in
      (params, e)

  reads_member :
      (id user_id : Text)
      → is_plain id ≡ true
      → is_plain user_id ≡ true
      → (params : String → Text) × (read
            (word "api"
              ∷ word "workspaces"
              ∷ param "workspaceId"
              ∷ word "members"
              ∷ param "userId"
              ∷ [])
            (path_of (both id user_id) (
              word "api"
              ∷ word "workspaces"
              ∷ param "workspaceId"
              ∷ word "members"
              ∷ param "userId"
              ∷ []))
          ≡ some params)
        × (params "workspaceId" ≡ id)
        × (params "userId" ≡ user_id)
  unfolding codes
  reads_member id user_id p q =
      let (params, e, same) =
        reads
          (word "api"
            ∷ word "workspaces"
            ∷ param "workspaceId"
            ∷ word "members"
            ∷ param "userId"
            ∷ [])
          (both id user_id) (refl, (refl, (p, (refl, (q, tt))))) in
      (params, e, same.0, same.1.0)

  project_request-IsServedProject :
      (call : ProjectCall) → HasPlain call → IsServedProject forward encode read call
  unfolding codes
  project_request-IsServedProject list_workspaces plain =
      let (params, e) = reads_word "workspaces" refl in
      (1, (params, refl, e, λ caller correlation_id. refl))
  project_request-IsServedProject (create_workspace payload) plain =
      let (params, e) = reads_word "workspaces" refl in
      (0, (params, refl, e, λ caller correlation_id. refl))
  project_request-IsServedProject (list_projects id) plain =
      let (params, e, same) =
        reads_below forward encode read reads "workspaces" "workspaceId" "projects" id refl refl
          plain in
      (6, (params, refl, e, λ caller correlation_id. rw same refl))
  project_request-IsServedProject (create_project id payload) plain =
      let (params, e, same) =
        reads_below forward encode read reads "workspaces" "workspaceId" "projects" id refl refl
          plain in
      (2, (params, refl, e, λ caller correlation_id. rw same refl))
  project_request-IsServedProject (get_project id) plain =
      let (params, e, same) =
        reads_at forward encode read reads "projects" "projectId" id refl plain in
      (7, (params, refl, e, λ caller correlation_id. rw same refl))
  project_request-IsServedProject (update_project id payload) plain =
      let (params, e, same) =
        reads_at forward encode read reads "projects" "projectId" id refl plain in
      (8, (params, refl, e, λ caller correlation_id. rw same refl))
  project_request-IsServedProject (archive_project id) plain =
      let (params, e, same) =
        reads_at forward encode read reads "projects" "projectId" id refl plain in
      (9, (params, refl, e, λ caller correlation_id. rw same refl))
  project_request-IsServedProject (list_workspace_members id) plain =
      let (params, e, same) =
        reads_below forward encode read reads "workspaces" "workspaceId" "members" id refl refl
          plain in
      (3, (params, refl, e, λ caller correlation_id. rw same refl))
  project_request-IsServedProject (change_workspace_member_role id user_id role) plain =
      let (params, e, here, there) = reads_member id user_id plain.0 plain.1 in
      (4, (params, refl, e, λ caller correlation_id. rw (here, there) refl))
  project_request-IsServedProject (remove_workspace_member id user_id) plain =
      let (params, e, here, there) = reads_member id user_id plain.0 plain.1 in
      (5, (params, refl, e, λ caller correlation_id. rw (here, there) refl))

  -- Every function of the web client for issues, epics, sprints, workspaces, members and projects, but
  -- that which adds a member, sends a request with the method of a route of the gateway, by whose
  -- pattern the framework reads its path; and for the parameters that it reads, this route passes the
  -- identifiers and the body that the function sent on to the operation that the function is for. This
  -- holds for identifiers of digits, letters and hyphens, if the framework reads those as they stand.
  pub requests-IsServed :
      (issue : IssueCall) (project : ProjectCall)
      → is_plain (id_of issue) ≡ true
      → HasPlain project
      → IsServed forward encode read issue × IsServedProject forward encode read project
  requests-IsServed issue project plain has = (
    issue_request-IsServed forward encode read reads issue plain,
    project_request-IsServedProject project has,
  )
