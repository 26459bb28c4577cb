-- ===== src/WebClient/ApiError.antt =====
-- apps/web-client/src/lib/apiError.ts: what the web client makes of an error of a request.
use jira_microservices_lab.Common.{
  ℕ, Text, codes, ◌||◌, Option, none, some, List, [], ◌∷◌, ◌++◌, ltb, ◌==◌, if◌then◌else◌,
}
use jira_microservices_lab.Json.{
  Value, Fields, Items, end, field, nil, cons, undefined, null, bool, num, str, arr, obj, get,
  as_text,
}
use jira_microservices_lab.Gateway.Errors.{string_or, object_or_empty}

pub data ApiErrorKind : Type 0 where
  unavailable unauthorized forbidden not_found rejected unknown : ApiErrorKind

-- `error.response`: the status and the data.
pub record AxiosResponse : Type 0 where
  pub status : ℕ
  pub data_value : Value

-- `axios.isAxiosError(error)`, with the response if there was one, or any other error.
pub data RequestError : Type 0 where
  axios_error : Option AxiosResponse → RequestError
  no_axios_error : RequestError

-- `error.response?.data?.code`, if it is a string.
unfoldable pub get_api_error_code : RequestError → Option Text
get_api_error_code no_axios_error = none
get_api_error_code (axios_error none) = none
get_api_error_code (axios_error (some r)) = as_text (get "code" (object_or_empty r.data_value))

abbrev pub kind_of_status : ℕ → ApiErrorKind
kind_of_status status =
    if status == 0 || status == 502 || status == 503 || status == 504
    then unavailable
    else if status == 401
    then unauthorized
    else if status == 403
    then forbidden
    else if status == 404
    then not_found
    else if ltb status 500
    then rejected
    else unknown

unfoldable pub get_api_error_kind : RequestError → ApiErrorKind
get_api_error_kind no_axios_error = unknown
get_api_error_kind (axios_error none) = unavailable
get_api_error_kind (axios_error (some r)) = kind_of_status r.status

-- The texts among the values of an object or an array, in its order.
abbrev pub or_next : Value → List Text → List Text
or_next value texts = elim (as_text value) [ none ↦ texts | some t ↦ t ∷ texts ]

unfoldable pub texts_of_fields : Fields → List Text
texts_of_fields end = []
texts_of_fields (field name value rest) = or_next value (texts_of_fields rest)

unfoldable pub texts_of_items : Items → List Text
texts_of_items nil = []
texts_of_items (cons value rest) = or_next value (texts_of_items rest)

abbrev pub field_messages : Value → List Text
field_messages undefined = []
field_messages null = []
field_messages (bool b) = []
field_messages (num n) = []
field_messages (str t) = []
field_messages (arr items) = texts_of_items items
field_messages (obj fields) = texts_of_fields fields

-- `fieldMessages.join(" ")`
unfoldable pub join : List Text → Text
join [] = []
join (t ∷ []) = t
join (t ∷ u ∷ ts) = t ++ b' ' ∷ join (u ∷ ts)

abbrev pub message_of_body : Fields → Text → Text
message_of_body body fallback = elim (field_messages (get "details" body)) [
  | [] ↦ string_or (get "message" body) fallback
  | t ∷ ts ↦ join (t ∷ ts)
]

abbrev pub message_of_kind : ApiErrorKind → AxiosResponse → Text → Text
message_of_kind unavailable r fallback =
    codes "The service is temporarily unavailable. Try again shortly."
message_of_kind unauthorized r fallback = codes "Your session has expired. Sign in again."
message_of_kind unknown r fallback = fallback
message_of_kind forbidden r fallback = message_of_body (object_or_empty r.data_value) fallback
message_of_kind not_found r fallback = message_of_body (object_or_empty r.data_value) fallback
message_of_kind rejected r fallback = message_of_body (object_or_empty r.data_value) fallback

unfoldable pub get_api_error_message : RequestError → Text → Text
unfolding texts_of_fields texts_of_items join string_or
get_api_error_message no_axios_error fallback = fallback
get_api_error_message (axios_error none) fallback =
    codes "Cannot reach the server. Check your connection and try again."
get_api_error_message (axios_error (some r)) fallback =
    message_of_kind (kind_of_status r.status) r fallback
