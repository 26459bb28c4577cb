-- ===== src/WebClient/Requests.antt =====
-- apps/web-client/src/features/issue/api.ts: the request that each function sends, and the part of
-- the answer that it returns. axios is not modelled: a request is its arguments.
pub mod Served
pub mod Projects
use Prim.Native.String.{String}
use jira_microservices_lab.Common.{ℕ, Text, codes, ◌++◌, Option, none, some, Bool, false, text_eq}
use jira_microservices_lab.Json.{Value, Fields, undefined, str, num, nat, obj, end, field, nullable}
use jira_microservices_lab.Domain.Issue.{IssueStatus, status_name}
use jira_microservices_lab.Gateway.Client.{Method, get_method, post_method, patch_method}
use jira_microservices_lab.WebClient.ApiError.{RequestError, get_api_error_code}
use jira_microservices_lab.WebClient.Issues.{IssueListFilters, params}

-- What a function returns of the data of an answer: nothing, all of it, or one of its properties.
pub data AnswerPart : Type 0 where
  nothing whole : AnswerPart
  under : String → AnswerPart

pub record HttpCall : Type 0 where
  pub method : Method
  pub url : Text
  pub query : Fields
  pub body : Value
  pub answer : AnswerPart

-- The functions of api.ts. `list_issues` stands for one round of its loop, with the cursor of the
-- round; a payload is an object of the form that its type gives.
pub data IssueCall : Type 0 where
  list_issues : Text → IssueListFilters → Option Text → IssueCall
  get_issue : Text → IssueCall
  create_issue : Text → Fields → IssueCall
  transition_issue : Text → IssueStatus → ℕ → IssueCall
  assign_issue : Text → Option Text → ℕ → IssueCall
  update_issue : Text → Fields → ℕ → IssueCall
  list_comments : Text → IssueCall
  add_comment : Text → Text → IssueCall
  list_history : Text → IssueCall
  list_epics : Text → IssueCall
  create_epic : Text → Fields → IssueCall
  list_sprints : Text → IssueCall
  create_sprint : Text → Fields → IssueCall
  complete_sprint : Text → IssueCall

abbrev pub http_get : Text → String → HttpCall
http_get url part = record {
  method = get_method;
  url = url;
  query = end;
  body = undefined;
  answer = under part;
}

abbrev pub http_post : Text → Value → AnswerPart → HttpCall
http_post url body answer = record {
  method = post_method;
  url = url;
  query = end;
  body = body;
  answer = answer;
}

abbrev pub http_patch : Text → Value → AnswerPart → HttpCall
http_patch url body answer = record {
  method = patch_method;
  url = url;
  query = end;
  body = body;
  answer = answer;
}

-- `${before}${id}${after}`
abbrev pub url_of : String → Text → String → Text
url_of before id after = codes before ++ (id ++ codes after)

abbrev pub expected_field : ℕ → Fields
expected_field version = field "expectedVersion" (num (nat version)) end

-- `{ ...payload, expectedVersion }`, for a payload without a property of that name.
abbrev pub with_expected : Fields → ℕ → Fields
with_expected end version = expected_field version
with_expected (field name value fs) version = field name value (with_expected fs version)

abbrev pub issue_request : IssueCall → HttpCall
issue_request (list_issues project_id filters cursor) = record {
  method = get_method;
  url = url_of "/api/projects/" project_id "/issues";
  query = params filters cursor;
  body = undefined;
  answer = whole;
}
issue_request (get_issue id) = http_get (codes "/api/issues/" ++ id) "issue"
issue_request (create_issue project_id payload) =
    http_post (url_of "/api/projects/" project_id "/issues") (obj payload) (under "issue")
issue_request (transition_issue id status version) =
    http_post (url_of "/api/issues/" id "/transitions")
      (obj (field "status" (str (codes (status_name status))) (expected_field version)))
      (under "issue")
issue_request (assign_issue id assignee version) =
    http_patch (url_of "/api/issues/" id "/assignee")
      (obj (field "assigneeUserId" (nullable assignee) (expected_field version))) (under "issue")
issue_request (update_issue id payload version) =
    http_patch (codes "/api/issues/" ++ id) (obj (with_expected payload version)) (under "issue")
issue_request (list_comments id) = http_get (url_of "/api/issues/" id "/comments") "items"
issue_request (add_comment id text) =
    http_post (url_of "/api/issues/" id "/comments") (obj (field "body" (str text) end))
      (under "comment")
issue_request (list_history id) = http_get (url_of "/api/issues/" id "/history") "items"
issue_request (list_epics project_id) =
    http_get (url_of "/api/projects/" project_id "/epics") "items"
issue_request (create_epic project_id payload) =
    http_post (url_of "/api/projects/" project_id "/epics") (obj payload) (under "epic")
issue_request (list_sprints project_id) =
    http_get (url_of "/api/projects/" project_id "/sprints") "items"
issue_request (create_sprint project_id payload) =
    http_post (url_of "/api/projects/" project_id "/sprints") (obj payload) (under "sprint")
issue_request (complete_sprint id) =
    http_post (url_of "/api/sprints/" id "/complete") undefined (under "sprint")

abbrev pub is_code : Option Text → String → Bool
is_code none code = false
is_code (some c) code = text_eq c (codes code)

unfoldable pub is_concurrent_issue_modification : RequestError → Bool
is_concurrent_issue_modification error =
    is_code (get_api_error_code error) "CONCURRENT_ISSUE_MODIFICATION"
