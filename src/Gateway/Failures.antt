-- ===== src/Gateway/Failures.antt =====
-- apps/api-gateway-nest/src/infrastructure/http-clients/internal-service-http.client.ts: what is thrown
-- for the answers of a service.
use jira_microservices_lab.Common.{ℕ, ◌≡◌, ◌≢◌, refl, Text, false, [], ◌∷◌, arith, if_cases}
use jira_microservices_lab.Json.{undefined, null, bool, num, arr, Value, Fields, str, obj, get}
use jira_microservices_lab.Gateway.Errors.{
  AppException, Thrown, app, Outcome, throws, string_or, object_or_empty,
}
use jira_microservices_lab.Gateway.Client.{
  Method, ClientOptions, CallContext, HttpRequest, Fetched, failed, answered, JsonText, is_ok,
  parsed, only_object, upstream_error, unavailable, request_of, read_answer, forward,
}

string_or_filled : (value : Value) (fallback : Text) → fallback ≢ [] → string_or value fallback ≢ []
unfolding string_or
string_or_filled undefined fallback h k = h k
string_or_filled null fallback h k = h k
string_or_filled (bool b) fallback h k = h k
string_or_filled (num n) fallback h k = h k
string_or_filled (str []) fallback h k = h k
string_or_filled (str (c ∷ s)) fallback h k = absurd (ground arith)
string_or_filled (arr items) fallback h k = h k
string_or_filled (obj fields) fallback h k = h k

upstream_filled :
    (json : JsonText) (options : ClientOptions) (status : ℕ) (fields : Fields)
    → options.request_error_code ≢ []
    → (upstream_error json options status fields).code ≢ []
unfolding upstream_error
upstream_filled json options status fields r =
    string_or_filled (get "code" fields) options.request_error_code r

read_answer_safe :
    (json : JsonText) (options : ClientOptions) (f : Fetched) (t : Thrown)
    → options.request_error_code ≢ []
    → options.unavailable_code ≢ []
    → read_answer json options f ≡ throws t
    → (e : AppException) × (t ≡ app e) × (is_ok e.status_code ≡ false) × (e.code ≢ [])
unfolding read_answer
read_answer_safe json options failed t r u h = (unavailable json options, ground arith, refl, u)
read_answer_safe json options (answered status text) t r u h =
    let value = only_object json options.object_response_only (parsed json text) in
    if_cases
      (λ (o : Outcome Value).
        o ≡ throws t
        → (e : AppException) × (t ≡ app e) × (is_ok e.status_code ≡ false) × (e.code ≢ []))
      (is_ok status) _ _ (λ good k. absurd (ground arith))
      (λ bad k. (
        upstream_error json options status (object_or_empty value),
        ground arith,
        bad,
        upstream_filled json options status _ r,
      ))
      h

-- Whatever a service answers, and also when it cannot be reached, what `forward` throws is an
-- `AppException`, whose status is none of success and whose code is not empty, if the codes that the
-- client is configured with are not empty.
forward_safe :
    (json : JsonText) (options : ClientOptions) (secret : Text) (fetch : HttpRequest → Fetched)
    (method : Method) (path : Text) (body : Value) (context : CallContext) (t : Thrown)
    → options.request_error_code ≢ []
    → options.unavailable_code ≢ []
    → forward json options secret fetch method path body context ≡ throws t
    → (e : AppException) × (t ≡ app e) × (is_ok e.status_code ≡ false) × (e.code ≢ [])
unfolding forward
forward_safe json options secret fetch method path body context t r u h =
    read_answer_safe json options (fetch (request_of json options secret method path body context))
      t r u h
