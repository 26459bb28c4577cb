-- ===== src/Gateway/Services.antt =====
-- apps/api-gateway-nest/src/services/auth.service.ts and
-- apps/api-gateway-nest/src/services/projects.service.ts: `addWorkspaceMember` and the requests to
-- sign in, which are limited. A handler returns what it comes to, the state of Redis, and the calls
-- that it made of the service behind it.
use Prim.Native.String.{String}
use jira_microservices_lab.Common.{
  ℕ, Text, codes, text_eq, Bool, false, Option, none, some, List, [], ◌∷◌, ◌++◌, trim,
  if◌then◌else◌,
}
use jira_microservices_lab.Json.{Value, end, field, str, num, nat, get, as_text, as_object}
use jira_microservices_lab.Gateway.Errors.{
  AppException, Thrown, app, http, other, Outcome, returns, throws, app_exception,
}
use jira_microservices_lab.Gateway.Client.{RequestContext}
use jira_microservices_lab.Gateway.RateLimit.{Redis, RateLimitResult, hit, is_at_limit}

-- The calls of the services.
pub data Upstream : Type 0 where
  iam_call : String → Value → Text → Upstream
  add_member_call : Text → Value → RequestContext → Upstream

pub record Handled (Store : Type 0) : Type 0 where
  pub outcome : Outcome Value
  pub store : Store
  pub calls : List Upstream

unfoldable pub rate_limited : String → ℕ → ℕ → ℕ → AppException
unfolding app_exception
rate_limited rule limit count seconds = app_exception 429 "RATE_LIMITED" "Too many requests" (
    field "rule" (str (codes rule)) (
      field "limit" (num (nat limit))
        (field "count" (num (nat count)) (field "retryAfterSeconds" (num (nat seconds)) end))))

abbrev pub limited_error : String → RateLimitResult → AppException
limited_error rule r = rate_limited rule r.limit r.count r.ttl_seconds

abbrev pub register_key : Text → Text
register_key client_ip = codes "rate:auth:register:ip:" ++ client_ip

abbrev pub login_key : Text → Text
login_key client_ip = codes "rate:auth:login:ip:" ++ client_ip

abbrev pub email_key : Text → Text
email_key email = codes "rate:auth:login:email:" ++ email

abbrev pub refresh_key : Text → Text
refresh_key client_ip = codes "rate:auth:refresh:ip:" ++ client_ip

abbrev pub member_key : Text → Text
member_key user_id = codes "rate:workspace-member-add:user:" ++ user_id

abbrev pub member_add_limit : ℕ
member_add_limit = 20

abbrev pub member_add_window_seconds : ℕ
member_add_window_seconds = 600

-- `error instanceof AppException && error.code === 'INVALID_CREDENTIALS'`
unfoldable pub is_invalid_credentials : Thrown → Bool
is_invalid_credentials (app e) = text_eq e.code (codes "INVALID_CREDENTIALS")
is_invalid_credentials (http status response message) = false
is_invalid_credentials other = false

abbrev pub user_context : Option Text → Text → Outcome RequestContext
user_context none correlation_id =
    throws (app (app_exception 401 "UNAUTHORIZED" "Authentication token is required" end))
user_context (some []) correlation_id =
    throws (app (app_exception 401 "UNAUTHORIZED" "Authentication token is required" end))
user_context (some (c ∷ s)) correlation_id =
    returns (record { user_id = c ∷ s; correlation_id = correlation_id })

-- `toLowerCase` of strings is a parameter.
module _ (to_lower_case : Text → Text) where
  -- The email of a body, without the white space around it and in lower case.
  abbrev pub not_blank_email : Text → Option Text
  not_blank_email t = elim (trim t) [ [] ↦ none | c ∷ s ↦ some (to_lower_case (c ∷ s)) ]

  abbrev pub text_email : Option Text → Option Text
  text_email none = none
  text_email (some t) = not_blank_email t

  unfoldable pub email_from_body : Value → Option Text
  unfolding trim get
  email_from_body body = elim (as_object body) [
    | none ↦ none
    | some fields ↦ text_email (as_text (get "email" fields))
  ]

-- `upstream` is what a call comes to.
module _ {Store : Type 0} (redis : Redis Store) (to_lower_case : Text → Text)
    (upstream : Upstream → Outcome Value) where
  abbrev pub pass_on : Upstream → Store → Handled Store
  pass_on call s = record { outcome = upstream call; store = s; calls = call ∷ [] }

  abbrev pub refused : AppException → Store → Handled Store
  refused e s = record { outcome = throws (app e); store = s; calls = [] }

  -- The call that follows a hit, unless the limit is exceeded.
  abbrev pub unless_limited :
      String → RateLimitResult × Store → (Store → Handled Store) → Handled Store
  unless_limited rule (r, s) go_on = if r.limited then refused (limited_error rule r) s else go_on s

  unfoldable pub register : Value → Text → Text → Store → Handled Store
  unfolding hit rate_limited
  register body client_ip correlation_id s =
      unless_limited "register_ip" (hit redis (register_key client_ip) 5 600 s)
        (pass_on (iam_call "register" body correlation_id))

  -- A failed attempt is counted for its email.
  abbrev pub count_failure : Option Text → Outcome Value → Store → Store
  count_failure email (returns v) s = s
  count_failure none (throws t) s = s
  count_failure (some email) (throws t) s =
      let (r, s2) = hit redis (email_key email) 5 300 s in
      if is_invalid_credentials t then s2 else s

  abbrev pub attempt : Value → Text → Option Text → Store → Handled Store
  attempt body correlation_id email s =
      let call = iam_call "login" body correlation_id in
      record {
        outcome = upstream call;
        store = count_failure email (upstream call) s;
        calls = call ∷ [];
      }

  abbrev pub check_email : Value → Text → Option Text → Store → Handled Store
  check_email body correlation_id none s = attempt body correlation_id none s
  check_email body correlation_id (some email) s =
      let (full, s2) = is_at_limit redis (email_key email) 5 s in
      if full
      then refused (rate_limited "login_email" 5 5 300) s2
      else attempt body correlation_id (some email) s2

  unfoldable pub login : Value → Text → Text → Store → Handled Store
  unfolding hit is_at_limit rate_limited email_from_body is_invalid_credentials
  login body client_ip correlation_id s =
      unless_limited "login_ip" (hit redis (login_key client_ip) 10 60 s)
        (check_email body correlation_id (email_from_body to_lower_case body))

  unfoldable pub refresh : Value → Text → Text → Store → Handled Store
  unfolding hit rate_limited
  refresh body correlation_id client_ip s =
      unless_limited "refresh_ip" (hit redis (refresh_key client_ip) 10 60 s)
        (pass_on (iam_call "refresh" body correlation_id))

  unfoldable pub logout : Value → Text → Store → Handled Store
  logout body correlation_id s = pass_on (iam_call "logout" body correlation_id) s

  abbrev pub add_member : Text → Value → Outcome RequestContext → Store → Handled Store
  add_member workspace_id body (throws t) s = record { outcome = throws t; store = s; calls = [] }
  add_member workspace_id body (returns context) s =
      unless_limited "workspace_member_add_user"
        (hit redis (member_key context.user_id) member_add_limit member_add_window_seconds s)
        (pass_on (add_member_call workspace_id body context))

  unfoldable pub add_workspace_member : Text → Value → Option Text → Text → Store → Handled Store
  unfolding hit rate_limited app_exception
  add_workspace_member workspace_id body user_id correlation_id s =
      add_member workspace_id body (user_context user_id correlation_id) s
