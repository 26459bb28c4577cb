-- ===== src/Gateway/Guard.antt =====
-- apps/api-gateway-nest/src/presentation/common/guards/jwt-auth.guard.ts and
-- authenticated-request.ts in the same directory: who a request is from. `jwt.verify` is a parameter.
use jira_microservices_lab.Common.{
  Text, codes, text_eq, Option, none, some, List, [], ◌∷◌, ◌++◌, ◌==◌, if◌then◌else◌,
}
use jira_microservices_lab.Json.{
  Value, Fields, Items, end, nil, cons, undefined, null, bool, num, str, arr, obj, get, as_text,
}
use jira_microservices_lab.Presentation.{Header, absent, once, many}
use jira_microservices_lab.Gateway.Errors.{
  AppException, app, Outcome, returns, throws, app_exception,
}

pub record GatewayUser : Type 0 where
  pub id : Text
  pub user_id : Text
  pub email : Text
  pub roles : List Text

-- What `jwt.verify` does: it returns the claims of the token, or throws a TokenExpiredError or
-- another error.
pub data Verified : Type 0 where
  payload : Fields → Verified
  token_expired : Verified
  not_valid : Verified

unfoldable pub token_required : AppException
unfolding app_exception
token_required = app_exception 401 "UNAUTHORIZED" "Authentication token is required" end

unfoldable pub expired : AppException
unfolding app_exception
expired = app_exception 401 "TOKEN_EXPIRED" "Access token has expired" end

unfoldable pub invalid_token : AppException
unfolding app_exception
invalid_token = app_exception 401 "INVALID_TOKEN" "Access token is invalid" end

-- `authorization.split(' ')`: the parts.
abbrev pub add_to_first : Text → List Text → List Text
add_to_first t [] = t ∷ []
add_to_first t (p ∷ ps) = (t ++ p) ∷ ps

unfoldable pub split_spaces : Text → List Text
split_spaces [] = [] ∷ []
split_spaces (c ∷ s) =
    let parts = split_spaces s in if c == b' ' then [] ∷ parts else add_to_first (c ∷ []) parts

-- `const [scheme, token]`, of a scheme 'Bearer' and a token that is not empty.
abbrev pub bearer : List Text → Option Text
bearer [] = none
bearer (scheme ∷ []) = none
bearer (scheme ∷ [] ∷ parts) = none
bearer (scheme ∷ (c ∷ s) ∷ parts) = if text_eq scheme (codes "Bearer") then some (c ∷ s) else none

unfoldable pub extract_bearer_token : Header → Option Text
unfolding split_spaces
extract_bearer_token absent = none
extract_bearer_token (once authorization) = bearer (split_spaces authorization)
extract_bearer_token (many ts) = none

-- The texts of an array of texts.
abbrev pub and_next : Option Text → Option (List Text) → Option (List Text)
and_next none rest = none
and_next (some t) none = none
and_next (some t) (some ts) = some (t ∷ ts)

abbrev pub all_texts : Items → Option (List Text)
all_texts nil = some []
all_texts (cons v vs) = and_next (as_text v) (all_texts vs)

abbrev pub roles_of : Value → Option (List Text)
roles_of undefined = none
roles_of null = none
roles_of (bool b) = none
roles_of (num n) = none
roles_of (str t) = none
roles_of (arr vs) = all_texts vs
roles_of (obj fs) = none

abbrev pub user_of : Option Text → Option Text → Option (List Text) → Outcome GatewayUser
user_of none email roles = throws (app invalid_token)
user_of (some sub) none roles = throws (app invalid_token)
user_of (some sub) (some email) none = throws (app invalid_token)
user_of (some sub) (some email) (some roles) =
    returns (record { id = sub; user_id = sub; email = email; roles = roles })

unfoldable pub to_gateway_user : Fields → Outcome GatewayUser
unfolding invalid_token get
to_gateway_user claims =
    user_of (as_text (get "sub" claims)) (as_text (get "email" claims))
      (roles_of (get "roles" claims))

-- The `try` around the check of the token, in which every error but that of a token that has expired
-- becomes the same.
abbrev pub checked : Verified → Outcome GatewayUser
checked (payload claims) = elim (to_gateway_user claims) [
  | returns user ↦ returns user
  | throws t ↦ throws (app invalid_token)
]
checked token_expired = throws (app expired)
checked not_valid = throws (app invalid_token)

-- The user that the guard sets, or what it throws.
unfoldable pub can_activate : (Text → Verified) → Header → Outcome GatewayUser
unfolding token_required expired invalid_token extract_bearer_token to_gateway_user
can_activate verify authorization = elim (extract_bearer_token authorization) [
  | none ↦ throws (app token_required)
  | some token ↦ checked (verify token)
]
