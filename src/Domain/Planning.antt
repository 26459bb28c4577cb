-- ===== src/Domain/Planning.antt =====
-- apps/issue-service-nest/src/domain/planning.ts: epics and sprints, and the validation of their
-- dates. `Date` is the proleptic Gregorian calendar, year 0 included, as the language defines it.
use Prim.Native.String.{String}
use jira_microservices_lab.Common.{
  ℕ, ◌+◌, ◌-◌, ◌*◌, ◌%◌, Text, codes, text_lt, Option, none, some, Bool, false, ◌&&◌, ◌||◌, not,
  List, [], ◌∷◌, ◌++◌, leb, ◌==◌, all_of, if◌then◌else◌,
}
use jira_microservices_lab.Json.{Value, as_text, is_nullish}
use jira_microservices_lab.Domain.Errors.{Result, ok, err, require, validation_error}
use jira_microservices_lab.Domain.Values.{EnumName, is_empty, required_text}

pub data EpicColor : Type 0 where
  purple blue green yellow orange : EpicColor

pub data SprintStatus : Type 0 where
  active completed : SprintStatus

pub record Epic : Type 0 where
  pub id : Text
  pub project_id : Text
  pub name : Text
  pub color : EpicColor
  pub start_date : Option Text
  pub target_date : Option Text
  pub created_at : ℕ
  pub updated_at : ℕ

pub record Sprint : Type 0 where
  pub id : Text
  pub project_id : Text
  pub name : Text
  pub goal : Option Text
  pub start_date : Option Text
  pub end_date : Option Text
  pub status : SprintStatus
  pub created_at : ℕ
  pub completed_at : Option ℕ

abbrev pub color_name : EpicColor → String
color_name purple = "PURPLE"
color_name blue = "BLUE"
color_name green = "GREEN"
color_name yellow = "YELLOW"
color_name orange = "ORANGE"

instance abbrev pub epic_color_name : EnumName EpicColor
epic_color_name = record { name = color_name }

abbrev pub epic_colors : List EpicColor
epic_colors = purple ∷ blue ∷ green ∷ yellow ∷ orange ∷ []

abbrev pub is_digit : ℕ → Bool
is_digit c = leb b'0' c && leb c b'9'

-- The number that decimal digits spell.
abbrev pub digits : ℕ → Text → ℕ
digits n [] = n
digits n (c ∷ s) = digits (10 * n + (c - b'0')) s

-- The year, the month and the day of a text that matches ^\d{4}-\d{2}-\d{2}$.
unfoldable pub date_parts : Text → Option (ℕ × ℕ × ℕ)
date_parts (a ∷ b ∷ c ∷ d ∷ h ∷ e ∷ f ∷ i ∷ g ∷ j ∷ []) =
    if all_of is_digit (a ∷ b ∷ c ∷ d ∷ e ∷ f ∷ g ∷ j ∷ []) && h == b'-' && i == b'-'
    then some (digits 0 (a ∷ b ∷ c ∷ d ∷ []), digits 0 (e ∷ f ∷ []), digits 0 (g ∷ j ∷ []))
    else none
date_parts _ = none

abbrev is_leap : ℕ → Bool
is_leap y = y % 4 == 0 && (not (y % 100 == 0) || y % 400 == 0)

-- The days of a month of a year; 0 for a month that is none.
abbrev days_in : ℕ → ℕ → ℕ
days_in y m =
    if m == 2
    then (if is_leap y then 29 else 28)
    else if m == 4 || m == 6 || m == 9 || m == 11
    then 30
    else if leb 1 m && leb m 12
    then 31
    else 0

-- `new Date(…)` yields a time, and its ISO form starts with the same date: it is in the calendar.
unfoldable pub in_calendar : ℕ × ℕ × ℕ → Bool
in_calendar (y, m, d) = leb 1 d && leb d (days_in y m)

abbrev pub date_message : String → Text
date_message name = codes name ++ codes " must be an ISO date (YYYY-MM-DD)"

abbrev pub valid_date_message : String → Text
valid_date_message name = codes name ++ codes " must be a valid date"

unfoldable pub date_text : String → Text → Result Text
unfolding date_parts in_calendar
date_text name t = elim (date_parts t) [
  | none ↦ err (validation_error name (date_message name))
  | some p ↦ if in_calendar p then ok t else err (validation_error name (valid_date_message name))
]

abbrev is_empty_string : Option Text → Bool
is_empty_string none = false
is_empty_string (some t) = is_empty t

unfoldable pub optional_date : Value → String → Result (Option Text)
unfolding date_text
optional_date value name =
    if is_nullish value || is_empty_string (as_text value) then ok none else elim (as_text value) [
      | none ↦ err (validation_error name (date_message name))
      | some t ↦ elim (date_text name t) [ ok d ↦ ok (some d) | err e ↦ err e ]
    ]

-- A truthy start after a truthy end.
abbrev pub dates_reversed : Option Text → Option Text → Bool
dates_reversed (some (a ∷ s)) (some (b ∷ t)) = text_lt (b ∷ t) (a ∷ s)
dates_reversed _ _ = false

unfoldable pub plan_dates : Option Text → Option Text → Result (Unit {0})
plan_dates start end =
    require (not (dates_reversed start end))
      (validation_error "targetDate" (codes "targetDate must be on or after startDate"))

unfoldable pub epic_name : Value → Result Text
unfolding required_text
epic_name value = required_text value "name" 120
