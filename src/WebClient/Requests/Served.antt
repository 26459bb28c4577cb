-- ===== src/WebClient/Requests/Served.antt =====
-- apps/web-client/src/features/issue/api.ts against
-- apps/api-gateway-nest/src/presentation/issues/issues.controller.ts: what the gateway does with a
-- request of the web client. How the framework reads a path is a parameter.
use Prim.Native.String.{String}
use text.Mathlib.Text.{◌==◌ as str_eq}
use jira_microservices_lab.Common.{
  ℕ, zero, suc, ◌≡◌, refl, Text, codes, Bool, true, ◌&&◌, ◌||◌, ◌==◌, leb, all_of, Option, none,
  some, List, [], ◌∷◌, if◌then◌else◌,
}
use jira_microservices_lab.Json.{Value}
use jira_microservices_lab.Presentation.Routes.{Segment, word, param, path_of}
use jira_microservices_lab.Gateway.Errors.{Outcome}
use jira_microservices_lab.Gateway.Client.{RequestContext, Forward}
use jira_microservices_lab.Gateway.Guard.{GatewayUser}
use jira_microservices_lab.Gateway.Adapters.Issues
use jira_microservices_lab.Gateway.Routes.{GatewayRoute, query_of, gateway_routes}
use jira_microservices_lab.WebClient.Requests.{
  HttpCall, IssueCall, list_issues, get_issue, create_issue, transition_issue, assign_issue,
  update_issue, list_comments, add_comment, list_history, list_epics, create_epic, list_sprints,
  create_sprint, complete_sprint, issue_request,
}

abbrev pub get_elem? {ℓ} : {A : Type ℓ} → List A → ℕ → Option A
get_elem? [] n = none
get_elem? (x ∷ xs) zero = some x
get_elem? (x ∷ xs) (suc n) = get_elem? xs n

-- How the framework reads a path by the pattern of a route: the decoded parameters, if it matches.
abbrev pub PathReader : Type 0
PathReader = List Segment → Text → Option (String → Text)

-- A digit, a letter or a hyphen, as in the identifiers of the services.
abbrev pub is_plain_char : ℕ → Bool
is_plain_char c =
    (leb b'0' c && leb c b'9')
    || (leb b'a' c && leb c b'z')
    || (leb b'A' c && leb c b'Z')
    || c == b'-'

-- A text that stands for itself in a path.
abbrev pub is_plain : Text → Bool
is_plain [] = Bool.false
is_plain (c ∷ s) = is_plain_char c && all_of is_plain_char s

abbrev pub ArePlain : (String → Text) → List Segment → Type 0
ArePlain params [] = Unit {0}
ArePlain params (word w ∷ gs) = (is_plain (codes w) ≡ true) × ArePlain params gs
ArePlain params (param n ∷ gs) = (is_plain (params n) ≡ true) × ArePlain params gs

-- The parameters of a pattern are those given.
abbrev pub Agree : (String → Text) → (String → Text) → List Segment → Type 0
Agree found params [] = Unit {0}
Agree found params (word w ∷ gs) = Agree found params gs
Agree found params (param n ∷ gs) = (found n ≡ params n) × Agree found params gs

-- A path that a pattern has for plain texts of the parameters is read as these texts.
abbrev pub ReadsPlain : PathReader → Type 0
ReadsPlain read =
    (pattern : List Segment) (params : String → Text)
    → ArePlain params pattern
    → (found : String → Text) × (read pattern (path_of params pattern) ≡ some found)
      × Agree found params pattern

-- The parameters of a path that has one, by its name.
abbrev pub named : String → Text → String → Text
named name value other = if str_eq other name then value else []

-- A route has the method of a request, the framework reads its path by the pattern of the route, and
-- the handler does with the parameters that it reads, and the rest of the request, what `meant` says,
-- for any user, correlation identifier and query string.
abbrev pub Serves :
    PathReader → Option GatewayRoute → HttpCall → (RequestContext → Text → Outcome Value) → Type 0
Serves read none call meant = ⊥
Serves read (some g) call meant =
    (params : String → Text) × (g.method ≡ call.method)
    × (read g.pattern call.url ≡ some params)
    × ((url : Text) (user : GatewayUser) (correlation_id : Text)
        → g.handle (record {
          params = params;
          url = url;
          body = call.body;
          user = user;
          correlation_id = correlation_id;
        })
          ≡ meant (record { user_id = user.id; correlation_id = correlation_id }) (query_of url))

module _ (forward : Forward) (encode : Text → Text) where
  -- The call of the issue service that a function of the web client is for.
  abbrev pub issue_call : IssueCall → Value → RequestContext → Text → Outcome Value
  issue_call (list_issues id filters cursor) body context query =
      Issues.list_issues forward encode id query context
  issue_call (get_issue id) body context query = Issues.get_issue forward encode id context
  issue_call (create_issue id payload) body context query =
      Issues.create_issue forward encode id body context
  issue_call (transition_issue id status version) body context query =
      Issues.transition_issue forward encode id body context
  issue_call (assign_issue id assignee version) body context query =
      Issues.assign_issue forward encode id body context
  issue_call (update_issue id payload version) body context query =
      Issues.update_issue forward encode id body context
  issue_call (list_comments id) body context query = Issues.list_comments forward encode id context
  issue_call (add_comment id text) body context query =
      Issues.add_comment forward encode id body context
  issue_call (list_history id) body context query = Issues.list_history forward encode id context
  issue_call (list_epics id) body context query = Issues.list_epics forward encode id context
  issue_call (create_epic id payload) body context query =
      Issues.create_epic forward encode id body context
  issue_call (list_sprints id) body context query = Issues.list_sprints forward encode id context
  issue_call (create_sprint id payload) body context query =
      Issues.create_sprint forward encode id body context
  issue_call (complete_sprint id) body context query =
      Issues.complete_sprint forward encode id context

  -- A request has a route of the gateway that does what the function is for.
  abbrev pub IsServed : PathReader → IssueCall → Type 0
  IsServed read call =
      (n : ℕ) × Serves read (get_elem? (gateway_routes forward encode) n) (issue_request call)
        (issue_call call (issue_request call).body)

-- The identifier that a function puts into its path.
abbrev pub id_of : IssueCall → Text
id_of (list_issues id filters cursor) = id
id_of (get_issue id) = id
id_of (create_issue id payload) = id
id_of (transition_issue id status version) = id
id_of (assign_issue id assignee version) = id
id_of (update_issue id payload version) = id
id_of (list_comments id) = id
id_of (add_comment id text) = id
id_of (list_history id) = id
id_of (list_epics id) = id
id_of (create_epic id payload) = id
id_of (list_sprints id) = id
id_of (create_sprint id payload) = id
id_of (complete_sprint id) = id

module _ (forward : Forward) (encode : Text → Text) (read : PathReader)
    (reads : ReadsPlain read) where
  -- How the paths of the web client are read: of one thing, and below it.
  pub reads_at :
      (first name : String) (id : Text)
      → is_plain (codes first) ≡ true
      → is_plain (named name id name) ≡ true
      → (params : String → Text) × (read
            (word "api" ∷ word first ∷ param name ∷ [])
            (path_of (named name id) (word "api" ∷ word first ∷ param name ∷ []))
          ≡ some params)
        × (params name ≡ named name id name)
  unfolding codes
  reads_at first name id f plain =
      let (params, e, same) =
        reads (word "api" ∷ word first ∷ param name ∷ []) (named name id)
          (refl, (f, (plain, tt))) in
      (params, e, same.0)

  pub reads_below :
      (first name last : String) (id : Text)
      → is_plain (codes first) ≡ true
      → is_plain (codes last) ≡ true
      → is_plain (named name id name) ≡ true
      → (params : String → Text) × (read
            (word "api" ∷ word first ∷ param name ∷ word last ∷ [])
            (path_of (named name id) (word "api" ∷ word first ∷ param name ∷ word last ∷ []))
          ≡ some params)
        × (params name ≡ named name id name)
  unfolding codes
  reads_below first name last id f l plain =
      let (params, e, same) =
        reads (word "api" ∷ word first ∷ param name ∷ word last ∷ []) (named name id)
          (refl, (f, (plain, (l, tt)))) in
      (params, e, same.0)

  pub issue_request-IsServed :
      (call : IssueCall) → is_plain (id_of call) ≡ true → IsServed forward encode read call
  unfolding codes
  issue_request-IsServed (list_issues id filters cursor) plain =
      let (params, e, same) = reads_below "projects" "projectId" "issues" id refl refl plain in
      (1, (params, refl, e, λ url user correlation_id. rw same refl))
  issue_request-IsServed (get_issue id) plain =
      let (params, e, same) = reads_at "issues" "issueId" id refl plain in
      (2, (params, refl, e, λ url user correlation_id. rw same refl))
  issue_request-IsServed (create_issue id payload) plain =
      let (params, e, same) = reads_below "projects" "projectId" "issues" id refl refl plain in
      (0, (params, refl, e, λ url user correlation_id. rw same refl))
  issue_request-IsServed (transition_issue id status version) plain =
      let (params, e, same) = reads_below "issues" "issueId" "transitions" id refl refl plain in
      (5, (params, refl, e, λ url user correlation_id. rw same refl))
  issue_request-IsServed (assign_issue id assignee version) plain =
      let (params, e, same) = reads_below "issues" "issueId" "assignee" id refl refl plain in
      (4, (params, refl, e, λ url user correlation_id. rw same refl))
  issue_request-IsServed (update_issue id payload version) plain =
      let (params, e, same) = reads_at "issues" "issueId" id refl plain in
      (3, (params, refl, e, λ url user correlation_id. rw same refl))
  issue_request-IsServed (list_comments id) plain =
      let (params, e, same) = reads_below "issues" "issueId" "comments" id refl refl plain in
      (7, (params, refl, e, λ url user correlation_id. rw same refl))
  issue_request-IsServed (add_comment id text) plain =
      let (params, e, same) = reads_below "issues" "issueId" "comments" id refl refl plain in
      (6, (params, refl, e, λ url user correlation_id. rw same refl))
  issue_request-IsServed (list_history id) plain =
      let (params, e, same) = reads_below "issues" "issueId" "history" id refl refl plain in
      (8, (params, refl, e, λ url user correlation_id. rw same refl))
  issue_request-IsServed (list_epics id) plain =
      let (params, e, same) = reads_below "projects" "projectId" "epics" id refl refl plain in
      (9, (params, refl, e, λ url user correlation_id. rw same refl))
  issue_request-IsServed (create_epic id payload) plain =
      let (params, e, same) = reads_below "projects" "projectId" "epics" id refl refl plain in
      (10, (params, refl, e, λ url user correlation_id. rw same refl))
  issue_request-IsServed (list_sprints id) plain =
      let (params, e, same) = reads_below "projects" "projectId" "sprints" id refl refl plain in
      (12, (params, refl, e, λ url user correlation_id. rw same refl))
  issue_request-IsServed (create_sprint id payload) plain =
      let (params, e, same) = reads_below "projects" "projectId" "sprints" id refl refl plain in
      (13, (params, refl, e, λ url user correlation_id. rw same refl))
  issue_request-IsServed (complete_sprint id) plain =
      let (params, e, same) = reads_below "sprints" "sprintId" "complete" id refl refl plain in
      (14, (params, refl, e, λ url user correlation_id. rw same refl))
