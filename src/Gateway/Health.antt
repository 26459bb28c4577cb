-- ===== src/Gateway/Health.antt =====
-- apps/api-gateway-nest/src/presentation/health/health.service.ts: the health of the services behind
-- the gateway. The checks run side by side and share nothing, so their order does not matter here.
pub mod Aggregated
use Prim.Native.String.{String}
use jira_microservices_lab.Common.{
  ℕ, Text, codes, Bool, true, false, Option, none, some, List, [], ◌∷◌, ◌++◌, map, all_of, decimal,
  text_eq, if◌then◌else◌,
}
use jira_microservices_lab.Json.{
  Value, Fields, undefined, null, bool, num, str, arr, obj, get, as_text, field, end,
}
use jira_microservices_lab.Gateway.Client.{strip_slashes, is_ok}

pub data HealthStatus : Type 0 where
  ok degraded down : HealthStatus

pub record ServiceTarget : Type 0 where
  pub name : String
  pub env_name : String
  pub default_url : String

-- What is thrown: an Error with its name and message, or anything else.
pub data Raised : Type 0 where
  an_error : Text → Text → Raised
  other : Raised

pub record AggregatedServiceHealth : Type 0 where
  pub name : Text
  pub url : Text
  pub status : HealthStatus
  pub latency_ms : ℕ
  pub service : Value
  pub error : Option Text

abbrev target : String → String → String → ServiceTarget
target name env_name default_url = record {
  name = name;
  env_name = env_name;
  default_url = default_url;
}

abbrev pub issue_target : ServiceTarget
issue_target = target "issue-service" "ISSUE_SERVICE_URL" "http://localhost:8083"

abbrev pub targets : List ServiceTarget
targets =
    target "iam-service" "IAM_SERVICE_URL" "http://localhost:8081"
    ∷ target "project-service" "PROJECT_SERVICE_URL" "http://localhost:8082"
    ∷ issue_target
    ∷ target "notification-service" "NOTIFICATION_SERVICE_URL" "http://localhost:8084"
    ∷ []

-- The answer of the gateway about itself, at a time that `timestamp` writes.
abbrev pub get_gateway_health : Text → Fields
get_gateway_health timestamp = field "status" (str (codes "ok")) (
    field "service" (str (codes "api-gateway"))
      (field "version" (str (codes "0.1.0")) (field "timestamp" (str timestamp) end)))

-- What `fetch` comes to, with the time that it took: an error, also that of the time limit, or a
-- status and what reading the body as JSON comes to.
pub data Read : Type 0 where
  raised : Raised → Read
  value : Value → Read

pub data HealthReply : Type 0 where
  failed : Raised → HealthReply
  replied : ℕ → Read → HealthReply

unfoldable pub describe_error : Raised → Text
describe_error (an_error name message) =
    if text_eq name (codes "AbortError") then codes "timeout" else message
describe_error other = codes "unknown_error"

-- `body.status === 'ok'`
abbrev is_ok_text : Option Text → Bool
is_ok_text none = false
is_ok_text (some t) = text_eq t (codes "ok")

abbrev pub status_of : Value → HealthStatus
status_of status = if is_ok_text (as_text status) then ok else degraded

-- A property of the body; `null` has none to read, which throws.
abbrev pub properties : Value → Option (String → Value)
properties undefined = none
properties null = none
properties (bool b) = some (λ name. undefined)
properties (num n) = some (λ name. undefined)
properties (str t) = some (λ name. undefined)
properties (arr items) = some (λ name. undefined)
properties (obj fields) = some (λ name. get name fields)

-- `process.env[envName] ?? defaultUrl`
abbrev pub base_url_of : (String → Option Text) → ServiceTarget → Text
base_url_of env target = elim (env target.env_name) [ none ↦ codes target.default_url | some u ↦ u ]

unfoldable pub health_url : (String → Option Text) → ServiceTarget → Text
unfolding strip_slashes
health_url env target = strip_slashes (base_url_of env target) ++ codes "/health"

-- `type_error` is what reading a property of `null` throws.
module _ (type_error : Raised) (target : ServiceTarget) (url : Text) (latency : ℕ) where
  abbrev is_down : Text → AggregatedServiceHealth
  is_down error = record {
    name = codes target.name;
    url = url;
    status = down;
    latency_ms = latency;
    service = undefined;
    error = some error;
  }

  abbrev of_properties : Option (String → Value) → AggregatedServiceHealth
  of_properties none = is_down (describe_error type_error)
  of_properties (some get_property) = record {
    name = codes target.name;
    url = url;
    status = status_of (get_property "status");
    latency_ms = latency;
    service = get_property "service";
    error = none;
  }

  abbrev pub of_read : Read → AggregatedServiceHealth
  of_read (raised e) = is_down (describe_error e)
  of_read (value v) = of_properties (properties v)

  abbrev pub of_reply : HealthReply → AggregatedServiceHealth
  of_reply (failed e) = is_down (describe_error e)
  of_reply (replied status read) =
      if is_ok status then of_read read else is_down (codes "http_" ++ decimal status)

abbrev pub is_status_ok : HealthStatus → Bool
is_status_ok ok = true
is_status_ok degraded = false
is_status_ok down = false

module _ (type_error : Raised) (env : String → Option Text) (fetch : Text → HealthReply × ℕ) where
  unfoldable pub check_service : ServiceTarget → AggregatedServiceHealth
  unfolding health_url describe_error
  check_service target =
      let url = health_url env target in of_reply type_error target url (fetch url).1 (fetch url).0

  -- The status, and what it is made of; the time stamp is left out.
  unfoldable pub get_services_health : HealthStatus × List AggregatedServiceHealth
  unfolding check_service
  get_services_health =
      let services = map check_service targets in
      (if all_of (λ s. is_status_ok s.status) services then ok else degraded, services)
