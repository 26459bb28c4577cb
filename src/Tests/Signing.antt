-- ===== src/Tests/Signing.antt =====
-- Who may pass the gateway, with stand-ins for what it relies on: a Redis whose state is the
-- counters, and services that always answer the same.
use jira_microservices_lab.Common.{
  ℕ, suc, ◌-◌, ◌≡◌, ◌≤◌, refl, ap, Text, codes, text_eq, text_eq_refl, Bool, true, Option, none,
  some, [], ◌∷◌, ◌++◌, if◌then◌else◌, All,
}
use jira_microservices_lab.Json.{Value, Fields, obj, str, field, end}
use jira_microservices_lab.Presentation.Routes.{issue_routes, planning_routes}
use jira_microservices_lab.Gateway.Errors.{AppException, app, Outcome, returns, throws}
use jira_microservices_lab.Gateway.Client.{Forward}
use jira_microservices_lab.Gateway.RateLimit.{Redis}
use jira_microservices_lab.Gateway.Services
use jira_microservices_lab.Gateway.Services.{
  iam_call, Upstream, email_key, email_from_body, is_invalid_credentials,
}
use jira_microservices_lab.Gateway.Limits.{Counting}
use jira_microservices_lab.Gateway.Guesses.{Request, guesses, guesses_bounded}
use jira_microservices_lab.Gateway.Routes.{gateway_routes}
use jira_microservices_lab.Gateway.Proxy.{AllPassOn, routes_pass_on}
use jira_microservices_lab.Gateway.Projects.Routes.{
  IsGuarded, project_routes, project_routes-IsGuarded,
}
use jira_microservices_lab.Gateway.Cookies.{login}
use jira_microservices_lab.Gateway.Sessions.{IsPrivate, login-IsPrivate}
use jira_microservices_lab.Tests.Running.{code}

abbrev Counters : Type 0
Counters = Text → ℕ

abbrev add_one : Text → Counters → Counters
add_one key s other = if text_eq key other then suc (s other) else s other

abbrev memory : Redis Counters
memory = record {
  ensure_connected = λ s. (some tt, s);
  incr = λ key s. (some (suc (s key)), add_one key s);
  expire = λ key window s. (some tt, s);
  ttl = λ key s. (some (some 60), s);
  get_count = λ key s. (some (some (s key)), s);
}

add_one-same : (key : Text) (s : Counters) → add_one key s key ≡ suc (s key)
add_one-same key s = ap (λ (b : Bool). if b then suc (s key) else s key) (text_eq_refl key)

abbrev memory_law : Counting memory
memory_law = record {
  count = λ key s. s key;
  connected = λ s. refl;
  connected_count = λ key s. refl;
  added = λ key s. refl;
  added_count = add_one-same;
  added_other = λ key other s h. ap (λ (b : Bool). if b then suc (s other) else s other) h;
  expires = λ key window s. refl;
  expires_count = λ key other window s. refl;
  left = λ key s. some 60;
  lives = λ key s. refl;
  lives_count = λ key other s. refl;
  stored = λ key s. some (s key);
  shows = λ key s. refl;
  shows_number = λ key s. refl;
  shows_count = λ key other s. refl;
}

abbrev wrong_password : AppException
wrong_password = record {
  status_code = 401;
  code = codes "INVALID_CREDENTIALS";
  message = codes "Email or password is incorrect";
  details = end;
}

abbrev reject_all : Upstream → Outcome Value
reject_all call = throws (app wrong_password)

abbrev same : Text → Text
same t = t

abbrev guess : Request
guess = record {
  body = obj (field "email" (str (codes " ann@x ")) end);
  client_ip = codes "10.0.0.1";
  correlation_id = codes "c1";
}

abbrev fresh : Counters
fresh key = 0

is_rejected : is_invalid_credentials (app wrong_password) ≡ true
unfolding code is_invalid_credentials
is_rejected = refl

guesses_bounded_example :
    guesses memory same reject_all (codes "ann@x") (guess ∷ guess ∷ []) fresh
    ≤ 5 - memory_law.count (email_key (codes "ann@x")) fresh
guesses_bounded_example =
    guesses_bounded memory same reject_all memory_law (codes "ann@x") (guess ∷ guess ∷ []) fresh
      (λ r e. (app wrong_password, refl, is_rejected))

-- Both guesses count.
two_guesses : guesses memory same reject_all (codes "ann@x") (guess ∷ guess ∷ []) fresh ≡ 2
unfolding code guesses email_from_body Services.login
two_guesses = refl

abbrev echo : Forward
echo method path body context = returns (str path)

routes_pass_on_example :
    AllPassOn echo same (gateway_routes echo same) (issue_routes ++ planning_routes)
routes_pass_on_example = routes_pass_on echo same

project_routes-IsGuarded_example : All (IsGuarded echo same) (project_routes echo same)
project_routes-IsGuarded_example = project_routes-IsGuarded echo same

abbrev tokens : Fields
tokens = field "accessToken" (str (codes "a")) (field "refreshToken" (str (codes "r")) end)

abbrev accept_all : Upstream → Outcome Value
accept_all call = returns (obj tokens)

abbrev public_tokens : Value
public_tokens = obj (field "accessToken" (str (codes "a")) end)

abbrev decode_same : Text → Option Text
decode_same t = some t

logged_in :
    (login same decode_same same true memory accept_all guess.body none (codes "c1") fresh).outcome
    ≡ returns public_tokens
unfolding code login Services.login
logged_in = refl

login-IsPrivate_example :
    IsPrivate same true
      (accept_all (iam_call "login" guess.body (codes "c1")))
      public_tokens
      (login same decode_same same true memory accept_all guess.body none
        (codes "c1")
        fresh).set_cookie
login-IsPrivate_example =
    login-IsPrivate same decode_same same true memory accept_all guess.body none (codes "c1") fresh
      public_tokens logged_in
