-- ===== src/Json.antt =====
-- Values of unknown shape: a parsed request body, a query object, a stored JSON document.
use Prim.Native.String.{String}
use text.Mathlib.Text.{◌==◌ as str_eq}
use jira_microservices_lab.Common.{
  ℕ, Text, Bool, true, false, Option, none, some, List, [], ◌∷◌, if◌then◌else◌,
}

-- A number as the program tells numbers apart: an integer from 0 up, the integer -(n + 1), or one
-- that is no integer.
pub data Number : Type 0 where
  nat : ℕ → Number
  neg : ℕ → Number
  fraction : Number

mutual
  pub data Value : Type 0 where
    undefined null : Value
    bool : Bool → Value
    num : Number → Value
    str : Text → Value
    arr : Items → Value
    obj : Fields → Value

  pub data Fields : Type 0 where
    end : Fields
    field : String → Value → Fields → Fields

  pub data Items : Type 0 where
    nil : Items
    cons : Value → Items → Items

-- `input.key`: `undefined` when there is no such property.
unfoldable pub get : String → Fields → Value
get k end = undefined
get k (field j v fs) = if str_eq j k then v else get k fs

-- `Object.prototype.hasOwnProperty.call(input, key)`
unfoldable pub has_own : String → Fields → Bool
has_own k end = false
has_own k (field j v fs) = if str_eq j k then true else has_own k fs

-- The text of a value for which `typeof` is 'string'.
abbrev pub as_text : Value → Option Text
as_text undefined = none
as_text null = none
as_text (bool b) = none
as_text (num n) = none
as_text (str t) = some t
as_text (arr vs) = none
as_text (obj fs) = none

-- The properties of a value that is an object and no array.
abbrev pub as_object : Value → Option Fields
as_object undefined = none
as_object null = none
as_object (bool b) = none
as_object (num n) = none
as_object (str t) = none
as_object (arr vs) = none
as_object (obj fs) = some fs

-- `value === undefined || value === null`
abbrev pub is_nullish : Value → Bool
is_nullish undefined = true
is_nullish null = true
is_nullish (bool b) = false
is_nullish (num n) = false
is_nullish (str t) = false
is_nullish (arr vs) = false
is_nullish (obj fs) = false

-- `value === undefined`
abbrev pub is_undefined : Value → Bool
is_undefined undefined = true
is_undefined null = false
is_undefined (bool b) = false
is_undefined (num n) = false
is_undefined (str t) = false
is_undefined (arr vs) = false
is_undefined (obj fs) = false

abbrev pub items_of : List Value → Items
items_of [] = nil
items_of (v ∷ vs) = cons v (items_of vs)

-- A text or `null`.
abbrev pub nullable : Option Text → Value
nullable none = null
nullable (some t) = str t
