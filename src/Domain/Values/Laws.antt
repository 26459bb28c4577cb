-- ===== src/Domain/Values/Laws.antt =====
-- apps/issue-service-nest/src/domain/issue.ts: what the validators let through.
use Prim.Native.String.{String}
use jira_microservices_lab.Common.{
  ℕ, ◌≡◌, ◌≢◌, ◌≤◌, refl, true, some, List, [], ◌∷◌, Text, codes, text_eq_iff, trim, trim_idem,
  upper, lower, lower_idem, lower_unit, length, arith,
}
use jira_microservices_lab.Json.{Value, str}
use jira_microservices_lab.Domain.Errors.{ok}
use jira_microservices_lab.Domain.Values.{
  EnumName, required_text, find_named, enum_value, UuidUnit, hex, dash, version, variant, is_unit,
  fits, uuid_pattern, is_uuid, uuid,
}

-- Text that is required comes back trimmed, not empty and within the limit, and validating the
-- result again returns it unchanged.
required_text-normal :
    (value : Value) (name : String) (most : ℕ) (t : Text)
    → required_text value name most ≡ ok t
    → (t ≢ []) × (length t ≤ most) × (trim t ≡ t) × (required_text (str t) name most ≡ ok t)
unfolding required_text
required_text-normal (str s) name most t h = ground (arith, trim_idem s)
required_text-normal _ name most t h = cc

lower_unit-is_unit : (u : UuidUnit) (c : ℕ) → is_unit u c ≡ true → is_unit u (lower_unit c) ≡ true
unfolding lower_unit
lower_unit-is_unit hex c h = ground arith
lower_unit-is_unit dash c h = ground arith
lower_unit-is_unit version c h = ground arith
lower_unit-is_unit variant c h = ground arith

fits-lower : (us : List UuidUnit) (s : Text) → fits us s ≡ true → fits us (lower s) ≡ true
unfolding fits lower
fits-lower [] [] h = refl
fits-lower [] (c ∷ s) h = cc
fits-lower (u ∷ us) [] h = cc
fits-lower (u ∷ us) (c ∷ s) h = ground (arith, lower_unit-is_unit u c, fits-lower us s)

is_uuid-lower : (s : Text) → is_uuid s ≡ true → is_uuid (lower s) ≡ true
unfolding is_uuid
is_uuid-lower s h = fits-lower uuid_pattern s h

-- An identifier that is accepted comes back as a UUID in lower case, and validating the result
-- again returns it unchanged.
uuid-canonical :
    (value : Value) (name : String) (t : Text)
    → uuid value name ≡ ok t
    → (is_uuid t ≡ true) × (lower t ≡ t) × (uuid (str t) name ≡ ok t)
unfolding uuid
uuid-canonical (str s) name t h = ground (arith, lower_idem s, is_uuid-lower s)
uuid-canonical _ name t h = cc

module _ {T : Type 0} ⦃n : EnumName T⦄ where
  find_named_sound :
      (t : Text) (allowed : List T) (a : T) → find_named t allowed ≡ some a → t ≡ codes (n.name a)
  unfolding find_named
  find_named_sound t [] a h = cc
  find_named_sound t (b ∷ allowed) a h =
      ground (arith, text_eq_iff (codes (n.name b)) t, find_named_sound t allowed a)

  -- A value that is accepted is a string that spells the member's name, up to case and outer space.
  enum_value_sound :
      (value : Value) (name : String) (allowed : List T) (a : T)
      → enum_value value name allowed ≡ ok a
      → (t : Text) × (value ≡ str t) × (upper (trim t) ≡ codes (n.name a))
  unfolding enum_value
  enum_value_sound (str t) name allowed a h =
      (t, refl, ground (arith, find_named_sound (upper (trim t)) allowed a))
  enum_value_sound _ name allowed a h = absurd (ground arith)
