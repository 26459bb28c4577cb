-- ===== src/Gateway/Sessions.antt =====
-- apps/api-gateway-nest/src/presentation/auth/auth.controller.ts: where a refresh token goes.
use Prim.Native.String.{String}
use text.Mathlib.Text.{◌==◌ as str_eq}
use jira_microservices_lab.Common.{
  ◌≡◌, ◌≢◌, refl, sym, subst, codes, ◌++◌, if◌then◌else◌, Text, Bool, Option, none, some, [], ◌∷◌,
  arith, if_cases,
}
use jira_microservices_lab.Json.{
  Value, Fields, end, field, obj, str, null, bool, num, arr, undefined, get, as_text, as_object,
}
use jira_microservices_lab.Gateway.Errors.{Outcome, returns, throws}
use jira_microservices_lab.Gateway.RateLimit.{Redis, RateLimitResult, hit, is_at_limit}
use jira_microservices_lab.Gateway.Services
use jira_microservices_lab.Gateway.Services.{Upstream, Handled, iam_call, email_from_body}
use jira_microservices_lab.Gateway.Cookies.{
  without, public_result, of_object, with_refresh_cookie, with_cookie, login, client_ip,
}

get-without : (k : String) (fs : Fields) → get k (without k fs) ≡ undefined
unfolding get without
get-without k end = refl
get-without k (field j v fs) =
    if_cases (λ (x : Fields). get k x ≡ undefined) (str_eq j k) _ _ (λ e. get-without k fs)
      (λ e. ground (arith, e, get-without k fs))

as_object_lem : (v : Value) (fields : Fields) → as_object v ≡ some fields → v ≡ obj fields
as_object_lem (obj fs) fields h = ground arith
as_object_lem undefined fields h = absurd (ground arith)
as_object_lem null fields h = absurd (ground arith)
as_object_lem (bool b) fields h = absurd (ground arith)
as_object_lem (num n) fields h = absurd (ground arith)
as_object_lem (str t) fields h = absurd (ground arith)
as_object_lem (arr vs) fields h = absurd (ground arith)

as_text_lem : (v : Value) (t : Text) → as_text v ≡ some t → v ≡ str t
as_text_lem (str u) t h = ground arith
as_text_lem undefined t h = absurd (ground arith)
as_text_lem null t h = absurd (ground arith)
as_text_lem (bool b) t h = absurd (ground arith)
as_text_lem (num n) t h = absurd (ground arith)
as_text_lem (arr vs) t h = absurd (ground arith)
as_text_lem (obj fs) t h = absurd (ground arith)

-- From what the IAM service answers, what the browser gets: an object without a refresh token, and the
-- token of the IAM service in a cookie that scripts cannot read, for 30 days.
abbrev pub IsPrivate : (Text → Text) → Bool → Outcome Value → Value → Option Text → Type 0
IsPrivate encode production iam v cookie =
    (answer fields : Fields) × (token : Text) × (iam ≡ returns (obj answer))
    × (get "refreshToken" answer ≡ str token)
    × (token ≢ [])
    × (v ≡ obj fields)
    × (get "refreshToken" fields ≡ undefined)
    × (cookie
        ≡ some (
            codes "refresh_token="
            ++ (encode token
                ++ (codes "; HttpOnly; Path=/api/auth; SameSite=Strict; Max-Age="
                    ++ (codes "2592000" ++ (if production then codes "; Secure" else []))))))

module _ {Store : Type 0} (encode : Text → Text) (decode : Text → Option Text)
    (to_lower_case : Text → Text) (production : Bool) (redis : Redis Store)
    (upstream : Upstream → Outcome Value) where
  public_IsPrivate :
      (answer : Fields) (o : Option Text) (v : Value)
      → as_text (get "refreshToken" answer) ≡ o
      → (public_result encode decode to_lower_case production redis upstream answer o).0 ≡ returns v
      → IsPrivate encode production
          (returns (obj answer))
          v
          (public_result encode decode to_lower_case production redis upstream answer o).1
  public_IsPrivate answer none v t h = absurd (ground arith)
  public_IsPrivate answer (some []) v t h = absurd (ground arith)
  public_IsPrivate answer (some (c ∷ s)) v t h = (
    answer,
    without "refreshToken" answer,
    c ∷ s,
    refl,
    as_text_lem (get "refreshToken" answer) (c ∷ s) t,
    (λ e. absurd (ground arith)),
    ground arith,
    get-without "refreshToken" answer,
    refl,
  )

  object_IsPrivate :
      (w : Value) (o : Option Fields) (v : Value)
      → as_object w ≡ o
      → (of_object encode decode to_lower_case production redis upstream o).0 ≡ returns v
      → IsPrivate encode production
          (returns w)
          v
          (of_object encode decode to_lower_case production redis upstream o).1
  object_IsPrivate w none v e h = absurd (ground arith)
  object_IsPrivate w (some answer) v e h =
      subst
        (λ (x : Value).
          IsPrivate encode production (returns x) v
            (of_object encode decode to_lower_case production redis upstream (some answer)).1)
        (sym (as_object_lem w answer e))
        (public_IsPrivate answer (as_text (get "refreshToken" answer)) v refl h)

  cookie_IsPrivate :
      (iam : Outcome Value) (v : Value)
      → (with_cookie encode decode to_lower_case production redis upstream iam).0 ≡ returns v
      → IsPrivate encode production iam v
          (with_cookie encode decode to_lower_case production redis upstream iam).1
  unfolding with_refresh_cookie
  cookie_IsPrivate (returns w) v h = object_IsPrivate w (as_object w) v refl h
  cookie_IsPrivate (throws t) v h = absurd (ground arith)

  -- A login that returns has passed on what the IAM service answered.
  unless_limited_returns :
      (rule : String) (p : RateLimitResult × Store) (go_on : Store → Handled Store) (v : Value)
      → (Services.unless_limited redis to_lower_case upstream rule p go_on).outcome ≡ returns v
      → (go_on p.1).outcome ≡ returns v
  unless_limited_returns rule (r, s) go_on v h =
      if_cases (λ (x : Handled Store). x.outcome ≡ returns v → (go_on s).outcome ≡ returns v)
        r.limited _ _ (λ e k. absurd (ground arith)) (λ e k. k) h

  check_email_returns :
      (body : Value) (correlation_id : Text) (email : Option Text) (s : Store) (v : Value)
      → (Services.check_email redis to_lower_case upstream body correlation_id email s).outcome
        ≡ returns v
      → upstream (iam_call "login" body correlation_id) ≡ returns v
  check_email_returns body correlation_id none s v h = h
  check_email_returns body correlation_id (some email) s v h =
      if_cases
        (λ (x : Handled Store).
          x.outcome ≡ returns v → upstream (iam_call "login" body correlation_id) ≡ returns v)
        (is_at_limit redis (Services.email_key email) 5 s).0 _ _ (λ e k. absurd (ground arith))
        (λ e k. k) h

  login_returns :
      (body : Value) (ip correlation_id : Text) (s : Store) (v : Value)
      → (Services.login redis to_lower_case upstream body ip correlation_id s).outcome ≡ returns v
      → upstream (iam_call "login" body correlation_id) ≡ returns v
  unfolding Services.login
  login_returns body ip correlation_id s v h =
      let email = email_from_body to_lower_case body in
      let counted = hit redis (Services.login_key ip) 10 60 s in
      check_email_returns body correlation_id email counted.1 v (
        unless_limited_returns "login_ip" counted
          (Services.check_email redis to_lower_case upstream body correlation_id email) v h)

  -- If a browser that logs in is given a value, the IAM service answered its call with an object that
  -- has a refresh token, a text that is not empty; the value is an object without one; and the token,
  -- encoded, is set as the cookie of that answer: HttpOnly, for /api/auth, SameSite=Strict, for 30 days,
  -- and Secure in production.
  pub login-IsPrivate :
      (body : Value) (ip : Option Text) (correlation_id : Text) (s : Store) (v : Value)
      → (login encode decode to_lower_case production redis upstream body ip correlation_id
          s).outcome
        ≡ returns v
      → IsPrivate encode production
          (upstream (iam_call "login" body correlation_id))
          v
          (login encode decode to_lower_case production redis upstream body ip correlation_id
            s).set_cookie
  unfolding login
  login-IsPrivate body ip correlation_id s v h =
      let address = client_ip encode decode to_lower_case production redis upstream ip in
      let handled = Services.login redis to_lower_case upstream body address correlation_id s in
      let (answer, fields, token, e, read, filled, made, without_token, set) =
        cookie_IsPrivate handled.outcome v h in
      (
        answer,
        fields,
        token,
        login_returns body address correlation_id s (obj answer) e,
        read,
        filled,
        made,
        without_token,
        set,
      )
