-- ===== src/Gateway/Projects/Routes.antt =====
-- apps/api-gateway-nest/src/presentation/projects/projects.controller.ts over
-- apps/api-gateway-nest/src/infrastructure/http-clients/project-service.adapter.ts.
use Prim.Native.String.{String}
use jira_microservices_lab.Common.{
  ◌≡◌, refl, ◌⊎◌, inl, inr, ℕ, Text, codes, Option, none, some, List, [], ◌∷◌, ◌++◌, All,
}
use jira_microservices_lab.Json.{Value, undefined, end}
use jira_microservices_lab.Presentation.Routes.{Segment, word, param, path_of}
use jira_microservices_lab.Gateway.Errors.{Outcome, throws, app, app_exception, discard}
use jira_microservices_lab.Gateway.Client.{
  Method, get_method, post_method, patch_method, delete_method, Forward,
}
use jira_microservices_lab.Gateway.Projects
use jira_microservices_lab.Gateway.Projects.{with_context}

pub record ProjectRequest : Type 0 where
  pub params : String → Text
  pub body : Value
  pub correlation_id : Text

-- The handler is given `request.user?.userId`.
pub record ProjectRoute : Type 0 where
  pub method : Method
  pub pattern : List Segment
  pub handle : ProjectRequest → Option Text → Outcome Value

abbrev pub project_route :
    Method → List Segment → (ProjectRequest → Option Text → Text → Outcome Value) → ProjectRoute
project_route method pattern call = record {
  method = method;
  pattern = pattern;
  handle = λ r user_id. call r user_id r.correlation_id;
}

module _ (forward : Forward) (encode : Text → Text) where
  -- The patterns stand below /api. These are the routes up to that which adds a member.
  abbrev pub workspace_routes : List ProjectRoute
  workspace_routes =
      project_route post_method (word "workspaces" ∷ [])
        (λ r. Projects.create_workspace forward encode r.body)
      ∷ project_route get_method (word "workspaces" ∷ [])
          (λ r. Projects.list_workspaces forward encode)
      ∷ project_route post_method (word "workspaces" ∷ param "workspaceId" ∷ word "projects" ∷ [])
          (λ r. Projects.create_project forward encode (r.params "workspaceId") r.body)
      ∷ project_route get_method (word "workspaces" ∷ param "workspaceId" ∷ word "members" ∷ [])
          (λ r. Projects.list_workspace_members forward encode (r.params "workspaceId"))
      ∷ []

  -- And these follow it.
  abbrev pub member_routes : List ProjectRoute
  member_routes =
      project_route patch_method
        (word "workspaces" ∷ param "workspaceId" ∷ word "members" ∷ param "userId" ∷ [])
        (λ r.
          Projects.change_workspace_member_role forward encode (r.params "workspaceId")
            (r.params "userId") r.body)
      ∷ project_route delete_method
          (word "workspaces" ∷ param "workspaceId" ∷ word "members" ∷ param "userId" ∷ [])
          (λ r.
            Projects.remove_workspace_member forward encode (r.params "workspaceId")
              (r.params "userId"))
      ∷ project_route get_method (word "workspaces" ∷ param "workspaceId" ∷ word "projects" ∷ [])
          (λ r. Projects.list_projects forward encode (r.params "workspaceId"))
      ∷ project_route get_method (word "projects" ∷ param "projectId" ∷ [])
          (λ r. Projects.get_project forward encode (r.params "projectId"))
      ∷ project_route patch_method (word "projects" ∷ param "projectId" ∷ [])
          (λ r. Projects.update_project forward encode (r.params "projectId") r.body)
      ∷ project_route delete_method (word "projects" ∷ param "projectId" ∷ [])
          (λ r. Projects.archive_project forward encode (r.params "projectId"))
      ∷ []

  abbrev pub project_routes : List ProjectRoute
  project_routes = workspace_routes ++ member_routes

  -- The request that a route of the gateway becomes, with the path of its own pattern.
  abbrev pub onward : ProjectRoute → ProjectRequest → Value → Text → Outcome Value
  onward g r sent user =
      forward g.method (path_of (λ name. encode (r.params name)) (word "internal" ∷ g.pattern)) sent
        (record { correlation_id = r.correlation_id; user_id = some user })

  abbrev pub unauthorized : Outcome Value
  unauthorized =
      throws (app (app_exception 401 "UNAUTHORIZED" "Authentication token is required" end))

  -- Without a user a request is rejected, whatever the service would answer, and with a user it is
  -- forwarded as that user's, the body with it if the method has one.
  pub record IsGuarded (g : ProjectRoute) : Type 0 where
    pub rejects :
        (r : ProjectRequest)
        → (g.handle r none ≡ unauthorized) × (g.handle r (some []) ≡ unauthorized)
    pub sent : ProjectRequest → Value
    pub with_body :
        ((r : ProjectRequest) → sent r ≡ r.body)
        ⊎ ((g.method ≡ get_method) ⊎ (g.method ≡ delete_method))
    pub passes :
        (r : ProjectRequest) (c : ℕ) (s : Text)
        → (g.handle r (some (c ∷ s)) ≡ onward g r (sent r) (c ∷ s))
          ⊎ (g.handle r (some (c ∷ s)) ≡ discard (onward g r (sent r) (c ∷ s)))

  -- A route that sends the body, one that reads, and one that removes and drops the answer.
  with_body_IsGuarded :
      (g : ProjectRoute)
      → ((r : ProjectRequest)
          → (g.handle r none ≡ unauthorized) × (g.handle r (some []) ≡ unauthorized))
      → ((r : ProjectRequest) (c : ℕ) (s : Text)
          → g.handle r (some (c ∷ s)) ≡ onward g r r.body (c ∷ s))
      → IsGuarded g
  with_body_IsGuarded g h f = record {
    rejects = h;
    sent = λ r. r.body;
    with_body = inl (λ r. refl);
    passes = λ r c s. inl (f r c s);
  }

  reading_IsGuarded :
      (g : ProjectRoute)
      → g.method ≡ get_method
      → ((r : ProjectRequest)
          → (g.handle r none ≡ unauthorized) × (g.handle r (some []) ≡ unauthorized))
      → ((r : ProjectRequest) (c : ℕ) (s : Text)
          → g.handle r (some (c ∷ s)) ≡ onward g r undefined (c ∷ s))
      → IsGuarded g
  reading_IsGuarded g m h f = record {
    rejects = h;
    sent = λ r. undefined;
    with_body = inr (inl m);
    passes = λ r c s. inl (f r c s);
  }

  removing_IsGuarded :
      (g : ProjectRoute)
      → g.method ≡ delete_method
      → ((r : ProjectRequest)
          → (g.handle r none ≡ unauthorized) × (g.handle r (some []) ≡ unauthorized))
      → ((r : ProjectRequest) (c : ℕ) (s : Text)
          → g.handle r (some (c ∷ s)) ≡ discard (onward g r undefined (c ∷ s)))
      → IsGuarded g
  removing_IsGuarded g m h f = record {
    rejects = h;
    sent = λ r. undefined;
    with_body = inr (inr m);
    passes = λ r c s. inr (f r c s);
  }

  -- Every route of the gateway for workspaces and projects but the one that adds a member rejects a
  -- request without a user, and forwards one with a user as that user's, to the path of its own
  -- pattern below /internal in place of /api, for the encoded parameters, and with the body unless
  -- it is a GET or a DELETE.
  pub project_routes-IsGuarded : All IsGuarded project_routes
  unfolding codes
  project_routes-IsGuarded = (
    with_body_IsGuarded _ (λ r. (refl, refl)) (λ r c s. refl),
    (
      reading_IsGuarded _ refl (λ r. (refl, refl)) (λ r c s. refl),
      (
        with_body_IsGuarded _ (λ r. (refl, refl)) (λ r c s. refl),
        (
          reading_IsGuarded _ refl (λ r. (refl, refl)) (λ r c s. refl),
          (
            with_body_IsGuarded _ (λ r. (refl, refl)) (λ r c s. refl),
            (
              removing_IsGuarded _ refl (λ r. (refl, refl)) (λ r c s. refl),
              (
                reading_IsGuarded _ refl (λ r. (refl, refl)) (λ r c s. refl),
                (
                  reading_IsGuarded _ refl (λ r. (refl, refl)) (λ r c s. refl),
                  (
                    with_body_IsGuarded _ (λ r. (refl, refl)) (λ r c s. refl),
                    (removing_IsGuarded _ refl (λ r. (refl, refl)) (λ r c s. refl), tt),
                  ),
                ),
              ),
            ),
          ),
        ),
      ),
    ),
  )
