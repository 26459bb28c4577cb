-- ===== src/Gateway/Cookies.antt =====
-- apps/api-gateway-nest/src/presentation/auth/auth.controller.ts: how a browser registers, logs in
-- and out and refreshes its tokens, and the cookie with the refresh token. A handler returns what it
-- comes to, the cookie that it sets, the state of Redis and its calls of the IAM service.
use Prim.Native.String.{String}
use text.Mathlib.Text.{◌==◌ as str_eq}
use jira_microservices_lab.Common.{
  ℕ, Text, codes, Bool, Option, none, some, List, [], ◌∷◌, ◌++◌, ◌==◌, trim, map, if◌then◌else◌,
}
use jira_microservices_lab.Json.{
  Value, Fields, end, field, str, obj, undefined, get, as_text, as_object,
}
use jira_microservices_lab.Gateway.Errors.{
  AppException, app, http, other, Outcome, returns, throws, app_exception,
}
use jira_microservices_lab.Gateway.RateLimit.{Redis}
use jira_microservices_lab.Gateway.Services.{Upstream, Handled}
use jira_microservices_lab.Gateway.Services

pub record Answered (Store : Type 0) : Type 0 where
  pub outcome : Outcome Value
  pub set_cookie : Option Text
  pub store : Store
  pub calls : List Upstream

-- The attributes, joined by '; ', and `Secure` in production.
abbrev pub cookie_attributes : Text → String → Bool → Text
cookie_attributes token max_age production =
    codes "refresh_token="
    ++ (token
        ++ (codes "; HttpOnly; Path=/api/auth; SameSite=Strict; Max-Age="
            ++ (codes max_age ++ (if production then codes "; Secure" else []))))

unfoldable pub invalid_response : AppException
unfolding app_exception
invalid_response =
    app_exception 502 "IAM_AUTH_ERROR" "IAM returned an invalid authentication response" end

unfoldable pub token_missing : AppException
unfolding app_exception
token_missing = app_exception 401 "INVALID_REFRESH_TOKEN" "Refresh token is required" end

-- The object without a property.
unfoldable pub without : String → Fields → Fields
without k end = end
without k (field j v fs) = if str_eq j k then without k fs else field j v (without k fs)

-- `cookieHeader.split(';')`
unfoldable pub split_semicolons : Text → List Text
split_semicolons [] = [] ∷ []
split_semicolons (c ∷ s) =
    let parts = split_semicolons s in if c == b';' then [] ∷ parts else add_to_first c parts
  where
    add_to_first : ℕ → List Text → List Text
    add_to_first d [] = (d ∷ []) ∷ []
    add_to_first d (p ∷ ps) = (d ∷ p) ∷ ps

-- What follows a prefix, if the text starts with it.
unfoldable pub after_prefix : Text → Text → Option Text
after_prefix [] t = some t
after_prefix (c ∷ s) [] = none
after_prefix (c ∷ s) (d ∷ t) = if c == d then after_prefix s t else none

abbrev pub first_after : Text → List Text → Option Text
first_after prefix [] = none
first_after prefix (t ∷ ts) = elim (after_prefix prefix t) [
  | some rest ↦ some rest
  | none ↦ first_after prefix ts
]

-- encodeURIComponent, decodeURIComponent (which may throw) and toLowerCase; whether the process is
-- in production; Redis, and what a call of the IAM service comes to.
module _ {Store : Type 0} (encode : Text → Text) (decode : Text → Option Text)
    (to_lower_case : Text → Text) (production : Bool) (redis : Redis Store)
    (upstream : Upstream → Outcome Value) where
  abbrev pub refresh_cookie : Text → Text
  refresh_cookie token = cookie_attributes (encode token) "2592000" production

  abbrev pub cleared_cookie : Text
  cleared_cookie = cookie_attributes [] "0" production

  -- The value of the first cookie of this name; a text that cannot be decoded counts as none.
  abbrev pub decoded : Option Text → Option Text
  decoded none = none
  decoded (some t) = decode t

  abbrev pub from_cookies : Text → Option Text
  from_cookies header =
      decoded (first_after (codes "refresh_token=") (map trim (split_semicolons header)))

  unfoldable pub refresh_token_from_request : Option Text → Option Text
  unfolding split_semicolons after_prefix trim
  refresh_token_from_request none = none
  refresh_token_from_request (some []) = none
  refresh_token_from_request (some (c ∷ s)) = from_cookies (c ∷ s)

  abbrev pub public_result : Fields → Option Text → Outcome Value × Option Text
  public_result fields none = (throws (app invalid_response), none)
  public_result fields (some []) = (throws (app invalid_response), none)
  public_result fields (some (c ∷ s)) =
      (returns (obj (without "refreshToken" fields)), some (refresh_cookie (c ∷ s)))

  abbrev pub of_object : Option Fields → Outcome Value × Option Text
  of_object none = (throws (app invalid_response), none)
  of_object (some fields) = public_result fields (as_text (get "refreshToken" fields))

  -- The result without the refresh token, which becomes the cookie.
  unfoldable pub with_refresh_cookie : Value → Outcome Value × Option Text
  unfolding without get invalid_response
  with_refresh_cookie result = of_object (as_object result)

  abbrev pub with_cookie : Outcome Value → Outcome Value × Option Text
  with_cookie (returns v) = with_refresh_cookie v
  with_cookie (throws t) = (throws t, none)

  abbrev pub answer_with : Handled Store → Outcome Value × Option Text → Answered Store
  answer_with handled (outcome, cookie) = record {
    outcome = outcome;
    set_cookie = cookie;
    store = handled.store;
    calls = handled.calls;
  }

  -- `request.ip ?? 'unknown'`
  abbrev pub client_ip : Option Text → Text
  client_ip none = codes "unknown"
  client_ip (some ip) = ip

  unfoldable pub register : Value → Option Text → Text → Store → Answered Store
  register body ip correlation_id s =
      let handled =
        Services.register redis to_lower_case upstream body (client_ip ip) correlation_id s in
      answer_with handled (handled.outcome, none)

  unfoldable pub login : Value → Option Text → Text → Store → Answered Store
  unfolding with_refresh_cookie
  login body ip correlation_id s =
      let handled =
        Services.login redis to_lower_case upstream body (client_ip ip) correlation_id s in
      answer_with handled (with_cookie handled.outcome)

  -- An error clears the cookie, unless the request was limited.
  abbrev pub or_cleared : Outcome Value × Option Text → Outcome Value × Option Text
  or_cleared (returns v, cookie) = (returns v, cookie)
  or_cleared (throws (app e), cookie) =
      (throws (app e), if e.status_code == 429 then cookie else some cleared_cookie)
  or_cleared (throws (http status response message), cookie) =
      (throws (http status response message), some cleared_cookie)
  or_cleared (throws other, cookie) = (throws other, some cleared_cookie)

  abbrev pub token_body : Text → Value
  token_body token = obj (field "refreshToken" (str token) end)

  abbrev pub rejected : Store → Answered Store
  rejected s = record {
    outcome = throws (app token_missing);
    set_cookie = none;
    store = s;
    calls = [];
  }

  abbrev pub refresh_with : Option Text → Option Text → Text → Store → Answered Store
  refresh_with none ip correlation_id s = rejected s
  refresh_with (some []) ip correlation_id s = rejected s
  refresh_with (some (c ∷ t)) ip correlation_id s =
      let handled =
        Services.refresh redis to_lower_case upstream (token_body (c ∷ t)) correlation_id
          (client_ip ip) s in
      answer_with handled (or_cleared (with_cookie handled.outcome))

  unfoldable pub refresh : Option Text → Option Text → Text → Store → Answered Store
  unfolding refresh_token_from_request token_missing with_refresh_cookie
  refresh cookies ip correlation_id s =
      refresh_with (refresh_token_from_request cookies) ip correlation_id s

  -- The answer is empty unless the call throws, and the cookie is cleared in any case.
  abbrev pub emptied : Outcome Value → Outcome Value
  emptied (returns v) = returns undefined
  emptied (throws t) = throws t

  abbrev pub logout_with : Option Text → Text → Store → Answered Store
  logout_with none correlation_id s = record {
    outcome = returns undefined;
    set_cookie = some cleared_cookie;
    store = s;
    calls = [];
  }
  logout_with (some []) correlation_id s = record {
    outcome = returns undefined;
    set_cookie = some cleared_cookie;
    store = s;
    calls = [];
  }
  logout_with (some (c ∷ t)) correlation_id s =
      let handled =
        Services.logout redis to_lower_case upstream (token_body (c ∷ t)) correlation_id s in
      answer_with handled (emptied handled.outcome, some cleared_cookie)

  unfoldable pub logout : Option Text → Text → Store → Answered Store
  unfolding refresh_token_from_request
  logout cookies correlation_id s =
      logout_with (refresh_token_from_request cookies) correlation_id s
