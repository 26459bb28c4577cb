-- ===== src/Gateway/Client.antt =====
-- apps/api-gateway-nest/src/infrastructure/http-clients/internal-service-http.client.ts: requests to
-- the services behind the gateway. Log lines are left out.
use jira_microservices_lab.Common.{
  ℕ, Text, codes, Bool, true, false, ◌&&◌, Option, none, some, [], ◌∷◌, ◌++◌, leb, ◌==◌,
  if◌then◌else◌,
}
use jira_microservices_lab.Json.{Value, Fields, end, field, str, obj, get, is_nullish}
use jira_microservices_lab.Gateway.Errors.{
  AppException, app, Outcome, returns, throws, string_or, object_or_empty,
}

pub data Method : Type 0 where
  get_method post_method patch_method delete_method : Method

pub record ClientOptions : Type 0 where
  pub service : Text
  pub base_url : Text
  pub request_error_code : Text
  pub request_error_message : Text
  pub unavailable_code : Text
  pub unavailable_message : Text
  pub object_response_only : Option Bool
  pub send_json_body : Option Bool

pub record RequestContext : Type 0 where
  pub user_id : Text
  pub correlation_id : Text

-- The context of `forward`, in which the user may be left out.
pub record CallContext : Type 0 where
  pub correlation_id : Text
  pub user_id : Option Text

abbrev pub of_user : RequestContext → CallContext
of_user context = record { correlation_id = context.correlation_id; user_id = some context.user_id }

-- What `fetch` is given.
pub record HttpRequest : Type 0 where
  pub url : Text
  pub method : Method
  pub headers : Fields
  pub body : Option Text

-- What `fetch` and the reading of the text come to: an error, also that of the time limit, or a status
-- and a text.
pub data Fetched : Type 0 where
  failed : Fetched
  answered : ℕ → Text → Fetched

-- JSON.stringify and JSON.parse, which throws for a text that is no JSON.
pub record JsonText : Type 0 where
  pub stringify : Value → Text
  pub parse : Text → Option Value

-- `options.baseUrl.replace(/\/+$/, '')`
unfoldable pub strip_slashes : Text → Text
strip_slashes [] = []
strip_slashes (c ∷ s) = elim (strip_slashes s) [
  | [] ↦ if c == b'/' then [] else c ∷ []
  | d ∷ t ↦ c ∷ d ∷ t
]

abbrev pub sends_json : Option Bool → Method → Bool
sends_json (some false) method = false
sends_json (some true) post_method = true
sends_json (some true) patch_method = true
sends_json (some true) get_method = false
sends_json (some true) delete_method = false
sends_json none post_method = true
sends_json none patch_method = true
sends_json none get_method = false
sends_json none delete_method = false

-- `body ?? {}`
abbrev pub or_empty : Value → Value
or_empty value = if is_nullish value then obj end else value

-- `context.userId ? {…} : {}`
abbrev pub user_header : Option Text → Fields → Fields
user_header none rest = rest
user_header (some []) rest = rest
user_header (some (c ∷ s)) rest = field "x-authenticated-user-id" (str (c ∷ s)) rest

abbrev pub is_ok : ℕ → Bool
is_ok status = leb 200 status && leb status 299

-- What a request comes to: its answer is received and read.
abbrev pub Forward : Type 0
Forward = Method → Text → Value → CallContext → Outcome Value

module _ (json : JsonText) where
  -- The parsed text; an empty text, or one that is no JSON, is an empty object.
  unfoldable pub parsed : Text → Value
  parsed [] = obj end
  parsed (c ∷ s) = elim (json.parse (c ∷ s)) [ none ↦ obj end | some v ↦ v ]

  abbrev pub only_object : Option Bool → Value → Value
  only_object (some true) v = obj (object_or_empty v)
  only_object (some false) v = v
  only_object none v = v

  -- The error that an answer with another status than 2xx is turned into.
  unfoldable pub upstream_error : ClientOptions → ℕ → Fields → AppException
  unfolding string_or
  upstream_error options status error = record {
    status_code = status;
    code = string_or (get "code" error) options.request_error_code;
    message = string_or (get "message" error) options.request_error_message;
    details = object_or_empty (get "details" error);
  }

  unfoldable pub unavailable : ClientOptions → AppException
  unavailable options = record {
    status_code = 503;
    code = options.unavailable_code;
    message = options.unavailable_message;
    details = end;
  }

  unfoldable pub request_of :
      ClientOptions → Text → Method → Text → Value → CallContext → HttpRequest
  unfolding strip_slashes
  request_of options secret method path body context =
      let has_body = sends_json options.send_json_body method in
      record {
        url = strip_slashes options.base_url ++ path;
        method = method;
        headers = field "accept" (str (codes "application/json")) (
            (if has_body then field "content-type" (str (codes "application/json")) else λ rest.
            rest)
              (user_header context.user_id (
                field "x-correlation-id" (str context.correlation_id)
                  (field "x-internal-service-secret" (str secret) end))));
        body = if has_body then some (json.stringify (or_empty body)) else none;
      }

  unfoldable pub read_answer : ClientOptions → Fetched → Outcome Value
  unfolding parsed upstream_error unavailable
  read_answer options failed = throws (app (unavailable options))
  read_answer options (answered status text) =
      let value = only_object options.object_response_only (parsed text) in
      if is_ok status
      then returns value
      else throws (app (upstream_error options status (object_or_empty value)))

  unfoldable pub forward : ClientOptions → Text → (HttpRequest → Fetched) → Forward
  unfolding request_of read_answer
  forward options secret fetch method path body context =
      read_answer options (fetch (request_of options secret method path body context))
