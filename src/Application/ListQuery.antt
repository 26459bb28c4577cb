-- ===== src/Application/ListQuery.antt =====
-- apps/issue-service-nest/src/application/issue-list-query.ts: the query string of the paged list of
-- issues, and the cursor that names the position of a page. `Buffer` is a parameter: `to_base64` is
-- `Buffer.from(text).toString('base64url')` and `from_base64` the other way.
pub mod Cursor
use Prim.Native.String.{String}
use jira_microservices_lab.Common.{
  ℕ, ◌+◌, ◌-◌, ◌*◌, Text, codes, text_eq, Option, none, some, Bool, true, false, ◌&&◌, ◌||◌, not,
  List, [], ◌∷◌, ◌++◌, ltb, leb, ◌==◌, all_of, any_of, take, length, if◌then◌else◌,
}
use jira_microservices_lab.Json.{Value, Fields, end, field, get, as_text, str, is_undefined}
use jira_microservices_lab.Repository.Listing.Filter.{IssueListFilter, IssueListPosition}
use text.Mathlib.Text.{◌==◌ as str_eq}
use jira_microservices_lab.Domain.Errors.{Error, Result, ok, err, ◌>>=◌, ◌>>◌, validation_error}
use jira_microservices_lab.Domain.Issue.{IssueStatus, issue_statuses, issue_status_name}
use jira_microservices_lab.Domain.Values.{uuid, required_text, enum_value, is_uuid}
use jira_microservices_lab.Domain.Planning.{is_digit, digits, date_parts, in_calendar}

pub record IssueListQuery : Type 0 where
  pub filter : IssueListFilter
  pub limit : ℕ
  pub after : Option IssueListPosition

abbrev pub default_limit : ℕ
default_limit = 25

abbrev pub max_limit : ℕ
max_limit = 50

abbrev pub parameters : List String
parameters = "status" ∷ "assigneeUserId" ∷ "sprintId" ∷ "q" ∷ "limit" ∷ "cursor" ∷ []

-- The loop over the entries of the query.
unfoldable pub check_parameters : Fields → Result (Unit {0})
check_parameters end = ok tt
check_parameters (field name value rest) =
    let checked = check_parameters rest in
    if not (any_of (str_eq name) parameters)
    then err (validation_error name (codes name ++ codes " is not a supported parameter"))
    else elim (as_text value) [
      | none ↦ err (validation_error name (codes name ++ codes " must be given once"))
      | some t ↦ checked
    ]

-- A character of ^\d{4}-\d{2}-\d{2}T\d{2}:\d{2}:\d{2}\.\d{6}Z$
pub data TimeUnit : Type 0 where
  digit : TimeUnit
  exactly : ℕ → TimeUnit

abbrev pub is_time_unit : TimeUnit → ℕ → Bool
is_time_unit digit c = is_digit c
is_time_unit (exactly d) c = c == d

unfoldable pub time_pattern : List TimeUnit
time_pattern =
    digit
    ∷ digit
    ∷ digit
    ∷ digit
    ∷ exactly b'-'
    ∷ digit
    ∷ digit
    ∷ exactly b'-'
    ∷ digit
    ∷ digit
    ∷ exactly b'T'
    ∷ digit
    ∷ digit
    ∷ exactly b':'
    ∷ digit
    ∷ digit
    ∷ exactly b':'
    ∷ digit
    ∷ digit
    ∷ exactly b'.'
    ∷ digit
    ∷ digit
    ∷ digit
    ∷ digit
    ∷ digit
    ∷ digit
    ∷ exactly b'Z'
    ∷ []

unfoldable pub fits_time : List TimeUnit → Text → Bool
fits_time [] [] = true
fits_time [] (c ∷ s) = false
fits_time (u ∷ us) [] = false
fits_time (u ∷ us) (c ∷ s) = if is_time_unit u c then fits_time us s else false

abbrev drop : ℕ → Text → Text
drop ℕ.zero t = t
drop (ℕ.suc n) [] = []
drop (ℕ.suc n) (c ∷ s) = drop n s

-- The number that two digits at a position spell.
abbrev two_at : ℕ → Text → ℕ
two_at n t = digits 0 (take 2 (drop n t))

abbrev valid_date : Option (ℕ × ℕ × ℕ) → Bool
valid_date none = false
valid_date (some p) = in_calendar p

-- `Date.parse` yields a time whose ISO form agrees to the millisecond: a date of the calendar, and
-- an hour, a minute and a second in range.
unfoldable pub is_instant : Text → Bool
unfolding date_parts in_calendar
is_instant t =
    valid_date (date_parts (take 10 t))
    && ltb (two_at 11 t) 24
    && ltb (two_at 14 t) 60
    && ltb (two_at 17 t) 60

-- The pattern and the check of the date.
unfoldable pub is_position_time : Text → Bool
unfolding fits_time time_pattern is_instant
is_position_time t = fits_time time_pattern t && is_instant t

-- `text.split('|')`: the first part and the rest.
unfoldable pub split_bar : Text → Text × List Text
split_bar [] = ([], [])
split_bar (c ∷ s) =
    let (part, parts) = split_bar s in if c == b'|' then ([], part ∷ parts) else (c ∷ part, parts)

unfoldable pub invalid_cursor : Error
invalid_cursor = validation_error "cursor" (codes "cursor is not a valid issue list cursor")

-- `[createdAt = '', id = '', extra]`: the second part, and whether there is a third.
abbrev second_part : List Text → Text
second_part [] = []
second_part (t ∷ ts) = t

abbrev has_extra : List Text → Bool
has_extra [] = false
has_extra (t ∷ []) = false
has_extra (t ∷ u ∷ ts) = true

-- `value === undefined ? undefined : validate(value)`
abbrev pub given {ℓ} : {A : Type ℓ} → Value → Result A → Result (Option A)
given value validated = if is_undefined value then ok none else (validated >>= λ a. ok (some a))

abbrev limit_message : Text
limit_message = codes "limit must be an integer from 1 to 50"

-- `/^\d{1,3}$/.test(value) ? Number(value) : NaN`, and the range.
unfoldable pub parse_limit : Text → Result ℕ
parse_limit t =
    if leb 1 (length t)
      && leb (length t) 3
      && all_of is_digit t
      && leb 1 (digits 0 t)
      && leb (digits 0 t) max_limit
    then ok (digits 0 t)
    else err (validation_error "limit" limit_message)

abbrev pub or_default : Option ℕ → ℕ
or_default none = default_limit
or_default (some n) = n

-- The text of a parameter, which `check_parameters` has found to be a string.
abbrev pub text_of : Value → Text
text_of value = elim (as_text value) [ none ↦ [] | some t ↦ t ]

-- The field `filter` of the result.
unfoldable pub parse_filter : Fields → Result IssueListFilter
parse_filter query = do
  status ← given (get "status" query) (enum_value (get "status" query) "status" issue_statuses)
  assignee_user_id ←
      given (get "assigneeUserId" query) (uuid (get "assigneeUserId" query) "assigneeUserId")
  sprint_id ← given (get "sprintId" query) (uuid (get "sprintId" query) "sprintId")
  q ← given (get "q" query) (required_text (get "q" query) "q" 200)
  ok (record { status = status; assignee_user_id = assignee_user_id; sprint_id = sprint_id; q = q })

module _ (to_base64 from_base64 : Text → Text) where
  unfoldable pub encode_issue_cursor : IssueListPosition → Text
  encode_issue_cursor p = to_base64 (p.created_at ++ b'|' ∷ p.id)

  unfoldable pub decode_issue_cursor : Text → Result IssueListPosition
  unfolding split_bar is_position_time invalid_cursor
  decode_issue_cursor cursor =
      let text = from_base64 cursor in
      let (created_at, rest) = split_bar text in
      if has_extra rest
        || not (text_eq (to_base64 text) cursor)
        || not (is_position_time created_at)
      then err invalid_cursor
      else elim (uuid (str (second_part rest)) "cursor") [
        | ok id ↦ ok (record { created_at = created_at; id = id })
        | err e ↦ err invalid_cursor
      ]

  unfoldable pub parse_issue_list_query : Fields → Result IssueListQuery
  unfolding check_parameters parse_filter decode_issue_cursor parse_limit
  parse_issue_list_query query = do
    check_parameters query
    filter ← parse_filter query
    limit ← given (get "limit" query) (parse_limit (text_of (get "limit" query)))
    after ← given (get "cursor" query) (decode_issue_cursor (text_of (get "cursor" query)))
    ok (record { filter = filter; limit = or_default limit; after = after })
