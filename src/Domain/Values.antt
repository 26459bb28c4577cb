-- ===== src/Domain/Values.antt =====
-- apps/issue-service-nest/src/domain/issue.ts: the validation of single values of a request.
pub mod Laws
use Prim.Native.String.{String}
use jira_microservices_lab.Common.{
  ℕ, ◌≡◌, refl, Bool, true, false, ◌&&◌, ◌||◌, not, Option, none, some, List, [], ◌∷◌, ◌++◌, map,
  Text, codes, text_eq, trim, upper, lower, decimal, length, ltb, leb, ◌==◌, if◌then◌else◌, arith,
}
use jira_microservices_lab.Json.{
  Value, Fields, Items, str, arr, obj, nil, cons, end, field, as_text, is_nullish, items_of,
}
use jira_microservices_lab.Domain.Errors.{
  Error, Result, ok, err, domain, DomainError, validation_error,
}

-- The string that stands for a member of an enumeration.
pub record EnumName (T : Type 0) : Type 0 where
  pub name : T → String

abbrev pub is_empty : Text → Bool
is_empty [] = true
is_empty (c ∷ s) = false

unfoldable pub required_message : String → Text
required_message name = codes name ++ codes " is required"

unfoldable pub length_message : String → ℕ → Text
length_message name most =
    codes name ++ codes " must be " ++ decimal most ++ codes " characters or fewer"

unfoldable pub required_text : Value → String → ℕ → Result Text
required_text value name most = elim (as_text value) [
  | none ↦ err (validation_error name (required_message name))
  | some t ↦
      let normalized = trim t in
      if is_empty normalized
      then err (validation_error name (required_message name))
      else if ltb most (length normalized)
      then err (validation_error name (length_message name most))
      else ok normalized
]

-- Is the value a string that is blank?
abbrev is_blank : Option Text → Bool
is_blank none = false
is_blank (some t) = is_empty (trim t)

unfoldable pub optional_text : Value → String → ℕ → Result (Option Text)
unfolding required_text
optional_text value name most =
    if is_nullish value
    then ok none
    else if is_blank (as_text value)
    then ok none
    else elim (required_text value name most) [ ok t ↦ ok (some t) | err e ↦ err e ]

-- `allowed.join(', ')`
join : List Text → Text
join [] = []
join (t ∷ []) = t
join (t ∷ u ∷ ts) = t ++ codes ", " ++ join (u ∷ ts)

module _ {T : Type 0} ⦃n : EnumName T⦄ where
  -- The member of `allowed` that a string names.
  unfoldable pub find_named : Text → List T → Option T
  find_named t [] = none
  find_named t (a ∷ allowed) = if text_eq (codes (n.name a)) t then some a else find_named t allowed

  unfoldable pub allowed_message : String → List T → Text
  unfolding join
  allowed_message name allowed =
      codes name ++ codes " must be one of " ++ join (map (λ a. codes (n.name a)) allowed)

  unfoldable pub enum_value : Value → String → List T → Result T
  enum_value value name allowed = elim (as_text value) [
    | none ↦ err (validation_error name (required_message name))
    | some t ↦ elim (find_named (upper (trim t)) allowed) [
      | none ↦ err (validation_error name (allowed_message name allowed))
      | some a ↦ ok a
    ]
  ]

-- A character class of the UUID pattern.
pub data UuidUnit : Type 0 where
  hex dash version variant : UuidUnit

abbrev is_hex : ℕ → Bool
is_hex c = (leb b'0' c && leb c b'9') || (leb b'a' c && leb c b'f') || (leb b'A' c && leb c b'F')

abbrev pub is_unit : UuidUnit → ℕ → Bool
is_unit hex c = is_hex c
is_unit dash c = c == b'-'
is_unit version c = leb b'1' c && leb c b'5'
is_unit variant c = c == b'8' || c == b'9' || c == b'a' || c == b'b' || c == b'A' || c == b'B'

abbrev hexes : ℕ → List UuidUnit → List UuidUnit
hexes ℕ.zero rest = rest
hexes (ℕ.suc n) rest = hex ∷ hexes n rest

-- [0-9a-f]{8}-[0-9a-f]{4}-[1-5][0-9a-f]{3}-[89ab][0-9a-f]{3}-[0-9a-f]{12}, case ignored
unfoldable pub uuid_pattern : List UuidUnit
uuid_pattern =
    hexes 8
      (dash ∷ hexes 4 (dash ∷ version ∷ hexes 3 (dash ∷ variant ∷ hexes 3 (dash ∷ hexes 12 []))))

unfoldable pub fits : List UuidUnit → Text → Bool
fits [] [] = true
fits [] (c ∷ s) = false
fits (u ∷ us) [] = false
fits (u ∷ us) (c ∷ s) = if is_unit u c then fits us s else false

unfoldable pub is_uuid : Text → Bool
unfolding uuid_pattern fits
is_uuid t = fits uuid_pattern t

unfoldable pub uuid_message : String → Text
uuid_message name = codes name ++ codes " must be a valid UUID"

unfoldable pub uuid : Value → String → Result Text
unfolding is_uuid
uuid value name = elim (as_text value) [
  | none ↦ err (validation_error name (uuid_message name))
  | some t ↦ if is_uuid t then ok (lower t) else err (validation_error name (uuid_message name))
]

-- `value === ''`
abbrev is_empty_string : Option Text → Bool
is_empty_string none = false
is_empty_string (some t) = is_empty t

unfoldable pub optional_uuid : Value → String → Result (Option Text)
unfolding uuid
optional_uuid value name =
    if is_nullish value || is_empty_string (as_text value)
    then ok none
    else elim (uuid value name) [ ok t ↦ ok (some t) | err e ↦ err e ]
