-- ===== src/WebClient/Cache.antt =====
-- The hooks of the web client: which answers are kept under which keys, and which keys a change makes
-- invalid. apps/web-client/src/features/issue/hooks/useIssues.ts and useIssue.ts, the changes of
-- features/issue/components/IssueDetailModal/IssueDetailModal.tsx, features/project/hooks/useProjects.ts
-- and features/notification/hooks/useNotifications.ts. React Query itself is not modelled.
pub mod Fresh
use Prim.Native.String.{String}
use jira_microservices_lab.Common.{
  ℕ, Text, codes, Bool, Option, none, some, List, [], ◌∷◌, ◌++◌, ◌&&◌, ◌||◌, ltb, text_eq,
  if◌then◌else◌,
}
use jira_microservices_lab.WebClient.ApiError.{
  ApiErrorKind, unavailable, unknown, unauthorized, forbidden, not_found, rejected, RequestError,
  get_api_error_code, get_api_error_kind,
}
use jira_microservices_lab.WebClient.Issues.{IssueListFilters}
use jira_microservices_lab.WebClient.Requests.{is_code, is_concurrent_issue_modification}

pub data KeyPart : Type 0 where
  name : String → KeyPart
  id : Text → KeyPart
  filters : IssueListFilters → KeyPart

abbrev pub Key : Type 0
Key = List KeyPart

-- What is asked: the `useQuery` hooks.
pub data Query : Type 0 where
  issues : Text → IssueListFilters → Query
  epics : Text → Query
  sprints : Text → Query
  issue : Text → Query
  comments : Text → Query
  history : Text → Query
  workspaces : Query
  projects : Text → Query
  project : Text → Query
  workspace_members : Text → Query
  notifications : Query

-- The keys that a change names.
abbrev pub issues_of : Text → Key
issues_of project_id = name "issues" ∷ name "list" ∷ id project_id ∷ []

abbrev pub key_for : String → Text → Key
key_for first i = name first ∷ id i ∷ []

abbrev pub query_key : Query → Key
query_key (issues project_id f) = name "issues" ∷ name "list" ∷ id project_id ∷ filters f ∷ []
query_key (epics project_id) = key_for "epics" project_id
query_key (sprints project_id) = key_for "sprints" project_id
query_key (issue i) = key_for "issue" i
query_key (comments i) = name "issue" ∷ id i ∷ name "comments" ∷ []
query_key (history i) = name "issue" ∷ id i ∷ name "history" ∷ []
query_key workspaces = name "workspaces" ∷ []
query_key (projects workspace_id) = key_for "projects" workspace_id
query_key (project i) = key_for "project" i
query_key (workspace_members workspace_id) = key_for "workspace-members" workspace_id
query_key notifications = name "notifications" ∷ []

-- What is changed: the `useMutation` hooks, with the identifiers that they are given. Where the
-- project of an issue may be missing it is an option.
pub data Mutation : Type 0 where
  create_issue create_epic create_sprint complete_sprint : Text → Mutation
  transition_issue : Text → Text → Mutation
  add_comment update_issue assign_issue : Option Text → Text → Mutation
  create_workspace : Mutation
  create_project : Text → Mutation
  update_project archive_project : Text → Text → Mutation
  add_member change_role remove_member : Text → Mutation
  mark_read mark_all_read : Mutation

pub data Settled : Type 0 where
  success : Settled
  error : RequestError → Settled

-- `if (projectId) …`
abbrev pub if_project : (Text → Key) → Option Text → List Key → List Key
if_project key none rest = rest
if_project key (some []) rest = rest
if_project key (some (c ∷ s)) rest = key (c ∷ s) ∷ rest

abbrev pub is_archived : RequestError → Bool
is_archived e = is_code (get_api_error_code e) "PROJECT_ARCHIVED"

-- `refreshCommentDependencies`
abbrev pub comment_keys : Option Text → Text → List Key
comment_keys project_id i =
    key_for "issue" i
    ∷ query_key (comments i)
    ∷ query_key (history i)
    ∷ if_project issues_of project_id []

-- `refreshIssue`
abbrev pub issue_keys : Option Text → Text → List Key
issue_keys project_id i = key_for "issue" i ∷ if_project issues_of project_id []

-- The keys made invalid after an error of an update or an assignment.
abbrev pub details_error : Option Text → Text → RequestError → List Key
details_error project_id i e =
    (if is_concurrent_issue_modification e then issue_keys project_id i else [])
    ++ (if is_archived e then if_project (key_for "project") project_id [] else [])

-- `onSettled` of `useManageProject`, `onSuccess` of `useManageWorkspaceMembers`, and `refresh` of
-- `useNotificationActions`
abbrev pub project_keys : Text → Text → List Key
project_keys workspace_id i = key_for "projects" workspace_id ∷ key_for "project" i ∷ []

abbrev pub member_keys : Text → List Key
member_keys workspace_id = key_for "workspace-members" workspace_id ∷ []

abbrev pub notification_keys : List Key
notification_keys = query_key notifications ∷ []

abbrev pub on_success : Mutation → List Key
on_success (create_issue p) = issues_of p ∷ []
on_success (create_epic p) = key_for "epics" p ∷ []
on_success (create_sprint p) = key_for "sprints" p ∷ []
on_success (complete_sprint p) = key_for "sprints" p ∷ issues_of p ∷ []
on_success (transition_issue p i) = issues_of p ∷ key_for "issue" i ∷ []
on_success (add_comment p i) = comment_keys p i
on_success (update_issue p i) = issue_keys p i
on_success (assign_issue p i) = issue_keys p i
on_success create_workspace = query_key workspaces ∷ []
on_success (create_project w) = key_for "projects" w ∷ []
on_success (update_project w p) = project_keys w p
on_success (archive_project w p) = project_keys w p
on_success (add_member w) = member_keys w
on_success (change_role w) = member_keys w
on_success (remove_member w) = member_keys w
on_success mark_read = notification_keys
on_success mark_all_read = notification_keys

abbrev pub on_error : RequestError → Mutation → List Key
on_error e (transition_issue p i) =
    issues_of p ∷ key_for "issue" i ∷ (if is_archived e then key_for "project" p ∷ [] else [])
on_error e (add_comment p i) = if is_concurrent_issue_modification e then comment_keys p i else []
on_error e (update_issue p i) = details_error p i e
on_error e (assign_issue p i) = details_error p i e
on_error e (update_project w p) = project_keys w p
on_error e (archive_project w p) = project_keys w p
on_error e _ = []

abbrev pub invalidated : Mutation → Settled → List Key
invalidated m success = on_success m
invalidated m (error e) = on_error e m

-- apps/web-client/src/lib/queryClient.ts: whether a query is asked again after an error.
abbrev pub is_passing : ApiErrorKind → Bool
is_passing unavailable = Bool.true
is_passing unknown = Bool.true
is_passing unauthorized = Bool.false
is_passing forbidden = Bool.false
is_passing not_found = Bool.false
is_passing rejected = Bool.false

unfoldable pub retry : ℕ → RequestError → Bool
unfolding get_api_error_kind
retry failure_count e = ltb failure_count 1 && is_passing (get_api_error_kind e)
