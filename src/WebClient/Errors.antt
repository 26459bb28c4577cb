-- ===== src/WebClient/Errors.antt =====
-- apps/api-gateway-nest/src/infrastructure/http-clients/internal-service-http.client.ts between
-- apps/issue-service-nest/src/presentation/domain-exception.filter.ts and
-- apps/web-client/src/lib/apiError.ts: errors on their way from the issue service to the user.
use Prim.Native.String.{String}
use jira_microservices_lab.Common.{
  ◌≡◌, ◌≢◌, refl, ap, sym, ◌∙◌, subst, Text, codes, Bool, true, false, Option, none, some, [], ◌∷◌,
  arith,
}
use jira_microservices_lab.Json.{Value, Fields, end, field, str, obj, get}
use jira_microservices_lab.Domain.Errors.{DomainError, domain, validation_error}
use jira_microservices_lab.Presentation.{Header, Response, error, error_response}
use jira_microservices_lab.Gateway.Errors.{AppException, Thrown, app, throws, string_or}
use jira_microservices_lab.Gateway.Client.{
  Method, ClientOptions, CallContext, HttpRequest, Fetched, answered, JsonText, is_ok, parsed,
  only_object, upstream_error, request_of, read_answer, forward,
}
use jira_microservices_lab.Gateway.Filter.{api_response}
use jira_microservices_lab.WebClient.ApiError.{
  RequestError, axios_error, get_api_error_code, get_api_error_message,
}

string_or-NonEmpty : (t fallback : Text) → t ≢ [] → string_or (str t) fallback ≡ t
unfolding string_or
string_or-NonEmpty [] fallback h = absurd (h refl)
string_or-NonEmpty (c ∷ s) fallback h = refl

-- What the client of the gateway sees as the error of its request.
abbrev pub seen : Response → RequestError
seen r = axios_error (some (record { status = r.status; data_value = obj r.body }))

-- The error of a handler, as the gateway knows it.
abbrev pub app_of : DomainError → AppException
app_of e = record {
  status_code = e.status;
  code = e.code;
  message = e.message;
  details = e.details;
}

only_object-obj :
    (json : JsonText) (o : Option Bool) (fs : Fields) → only_object json o (obj fs) ≡ obj fs
only_object-obj json none fs = refl
only_object-obj json (some true) fs = refl
only_object-obj json (some false) fs = refl

upstream_error-error_response :
    (json : JsonText) (options : ClientOptions) (request_id : Text) (header : Header)
    (e : DomainError)
    → e.code ≢ []
    → e.message ≢ []
    → upstream_error json options e.status
        (error_response request_id header (error (domain e))).body
      ≡ app_of e
unfolding upstream_error error_response get
upstream_error-error_response json options request_id header e c m =
    rw
      (
        string_or-NonEmpty e.code options.request_error_code c,
        string_or-NonEmpty e.message options.request_error_message m,
      )
      refl

-- The response of the issue service when a handler throws a `DomainError`.
abbrev pub thrown_response : Text → Header → DomainError → Response
thrown_response request_id header e = error_response request_id header (error (domain e))

read_error :
    (json : JsonText) (options : ClientOptions) (request_id : Text) (header : Header)
    (e : DomainError)
    → is_ok e.status ≡ false
    → e.code ≢ []
    → e.message ≢ []
    → parsed json (json.stringify (obj (thrown_response request_id header e).body))
      ≡ obj (thrown_response request_id header e).body
    → read_answer json options
        (answered e.status (json.stringify (obj (thrown_response request_id header e).body)))
      ≡ throws (app (app_of e))
unfolding read_answer
read_error json options request_id header e bad c m back =
    rw
      (
        back,
        only_object-obj json options.object_response_only
            (thrown_response request_id header e).body,
        bad,
      )
      (ap (λ (x : AppException). throws (app x))
        (upstream_error-error_response json options request_id header e c m))

code_seen :
    (correlation_id : Text) (e : DomainError)
    → get_api_error_code (seen (api_response correlation_id (app (app_of e)))) ≡ some e.code
unfolding get_api_error_code api_response get
code_seen correlation_id e = refl

-- For a `DomainError` that a handler of the issue service throws, the gateway throws an exception
-- with its status, code, message and details; its answer has this status, message and details,
-- and the web client finds the code in it: if the issue service is reached, if the status is none
-- of success, if the code and the message are not empty, and if parsing gives back the JSON that
-- the issue service wrote.
pub forward-error_response :
    (json : JsonText) (options : ClientOptions) (secret : Text) (fetch : HttpRequest → Fetched)
    (method : Method) (path : Text) (body : Value) (context : CallContext) (request_id : Text)
    (header : Header) (e : DomainError) (correlation_id : Text)
    → fetch (request_of json options secret method path body context)
      ≡ answered e.status (json.stringify (obj (thrown_response request_id header e).body))
    → is_ok e.status ≡ false
    → e.code ≢ []
    → e.message ≢ []
    → parsed json (json.stringify (obj (thrown_response request_id header e).body))
      ≡ obj (thrown_response request_id header e).body
    → (t : AppException) × (forward json options secret fetch method path body context
        ≡ throws (app t))
      × (t.status_code ≡ e.status)
      × (t.code ≡ e.code)
      × (t.message ≡ e.message)
      × (t.details ≡ e.details)
      × (get_api_error_code (seen (api_response correlation_id (app t))) ≡ some e.code)
      × ((api_response correlation_id (app t)).status ≡ e.status)
      × (get "message" (api_response correlation_id (app t)).body ≡ str e.message)
      × (get "details" (api_response correlation_id (app t)).body ≡ obj e.details)
unfolding forward api_response get
forward-error_response json options secret fetch method path body context request_id header e
      correlation_id reached bad c m back =
    (
      app_of e,
      ap (read_answer json options) reached
          ∙ read_error json options request_id header e bad c m back,
      refl,
      refl,
      refl,
      refl,
      code_seen correlation_id e,
      refl,
      refl,
      refl,
    )

-- The error that `validationError` makes.
abbrev invalid : String → Text → DomainError
invalid name message = record {
  status = 400;
  code = codes "VALIDATION_ERROR";
  message = codes "Request validation failed";
  details = field name (str message) end;
}

invalid_lem :
    (name : String) (message : Text) → validation_error name message ≡ domain (invalid name message)
unfolding validation_error
invalid_lem name message = refl

codes-NonEmpty : (codes "VALIDATION_ERROR" ≢ []) × (codes "Request validation failed" ≢ [])
unfolding codes
codes-NonEmpty = (λ h. absurd (ground arith), λ h. absurd (ground arith))

message_shown :
    (name : String) (message correlation_id fallback : Text)
    → get_api_error_message
        (seen (api_response correlation_id (app (app_of (invalid name message)))))
        fallback
      ≡ message
unfolding get_api_error_message api_response get
message_shown name message correlation_id fallback = refl

-- The message of a validation error of the issue service is what the web client shows to the user,
-- whatever text it falls back on, if the issue service is reached and parsing gives back the JSON
-- that it wrote.
validation_error_shown :
    (json : JsonText) (options : ClientOptions) (secret : Text) (fetch : HttpRequest → Fetched)
    (method : Method) (path : Text) (body : Value) (context : CallContext) (request_id : Text)
    (header : Header) (name : String) (message correlation_id fallback : Text) (e : DomainError)
    → validation_error name message ≡ domain e
    → fetch (request_of json options secret method path body context)
      ≡ answered e.status (json.stringify (obj (thrown_response request_id header e).body))
    → parsed json (json.stringify (obj (thrown_response request_id header e).body))
      ≡ obj (thrown_response request_id header e).body
    → (t : Thrown) × (forward json options secret fetch method path body context ≡ throws t)
      × (get_api_error_message (seen (api_response correlation_id t)) fallback ≡ message)
unfolding forward
validation_error_shown json options secret fetch method path body context request_id header name
      message correlation_id fallback e made reached back =
    let same : invalid name message ≡ e =
      domain_injective _ e (sym (invalid_lem name message) ∙ made) in
    (
      app (app_of e),
      ap (read_answer json options) reached
          ∙ read_error json options request_id header e
              (subst (λ (x : DomainError). is_ok x.status ≡ false) same refl)
              (subst (λ (x : DomainError). x.code ≢ []) same codes-NonEmpty.0)
              (subst (λ (x : DomainError). x.message ≢ []) same codes-NonEmpty.1) back,
      subst
          (λ (x : DomainError).
            get_api_error_message (seen (api_response correlation_id (app (app_of x)))) fallback
            ≡ message)
          same (message_shown name message correlation_id fallback),
    )
  where
    domain_injective : (a b : DomainError) → domain a ≡ domain b → a ≡ b
    domain_injective a b h = ground arith
