-- ===== src/Application/ListQuery/Cursor.antt =====
-- apps/issue-service-nest/src/application/issue-list-query.ts: the cursor of a position.
use jira_microservices_lab.Common.{
  ℕ, ◌≡◌, refl, ap, sym, ◌∙◌, Text, text_eq_refl, lower, Bool, true, false, List, [], ◌∷◌, ◌++◌,
  ◌==◌, any_of, all_of, not, arith,
}
use jira_microservices_lab.Json.{str}
use jira_microservices_lab.Domain.Errors.{ok}
use jira_microservices_lab.Domain.Values.{
  UuidUnit, is_unit, hex, dash, version, variant, fits, is_uuid, uuid, uuid_pattern,
}
use jira_microservices_lab.Repository.Listing.Filter.{IssueListPosition}
use jira_microservices_lab.Application.ListQuery.{
  TimeUnit, digit, exactly, is_time_unit, time_pattern, fits_time, is_position_time, split_bar,
  encode_issue_cursor, decode_issue_cursor,
}

abbrev is_bar : ℕ → Bool
is_bar c = c == b'|'

-- A text without a bar is one part.
split_bar-plain : (s : Text) → any_of is_bar s ≡ false → split_bar s ≡ (s, [])
unfolding split_bar
split_bar-plain [] h = refl
split_bar-plain (c ∷ s) h = ground (arith, split_bar-plain s)

split_bar-append :
    (s t : Text)
    → any_of is_bar s ≡ false
    → any_of is_bar t ≡ false
    → split_bar (s ++ b'|' ∷ t) ≡ (s, t ∷ [])
unfolding split_bar
split_bar-append [] t h k = ground (arith, split_bar-plain t k)
split_bar-append (c ∷ s) t h k = ground (arith, split_bar-append s t)

unit_no_bar : (u : UuidUnit) (c : ℕ) → is_unit u c ≡ true → is_bar c ≡ false
unit_no_bar hex c h = ground arith
unit_no_bar dash c h = ground arith
unit_no_bar version c h = ground arith
unit_no_bar variant c h = ground arith

fits-no_bar : (us : List UuidUnit) (s : Text) → fits us s ≡ true → any_of is_bar s ≡ false
unfolding fits
fits-no_bar [] [] h = refl
fits-no_bar [] (c ∷ s) h = cc
fits-no_bar (u ∷ us) [] h = cc
fits-no_bar (u ∷ us) (c ∷ s) h = ground (arith, unit_no_bar u c, fits-no_bar us s)

time-no_bar :
    (us : List TimeUnit) (s : Text)
    → fits_time us s ≡ true
    → all_of (λ u. not (is_time_unit u b'|')) us ≡ true
    → any_of is_bar s ≡ false
unfolding fits_time
time-no_bar [] [] h k = refl
time-no_bar [] (c ∷ s) h k = cc
time-no_bar (u ∷ us) [] h k = cc
time-no_bar (digit ∷ us) (c ∷ s) h k = ground (arith, time-no_bar us s)
time-no_bar (exactly d ∷ us) (c ∷ s) h k = ground (arith, time-no_bar us s)

position_time-no_bar : (t : Text) → is_position_time t ≡ true → any_of is_bar t ≡ false
unfolding is_position_time
position_time-no_bar t h = time-no_bar time_pattern t (ground arith) refl

is_uuid-no_bar : (t : Text) → is_uuid t ≡ true → any_of is_bar t ≡ false
unfolding is_uuid
is_uuid-no_bar t h = fits-no_bar uuid_pattern t h

uuid_of_canonical : (t : Text) → is_uuid t ≡ true → lower t ≡ t → uuid (str t) "cursor" ≡ ok t
unfolding uuid
uuid_of_canonical t h e = ground (arith, h, e)

decoded :
    (to_base64 from_base64 : Text → Text) (p : IssueListPosition) (cursor : Text)
    → from_base64 cursor ≡ p.created_at ++ b'|' ∷ p.id
    → cursor ≡ to_base64 (p.created_at ++ b'|' ∷ p.id)
    → split_bar (p.created_at ++ b'|' ∷ p.id) ≡ (p.created_at, p.id ∷ [])
    → is_position_time p.created_at ≡ true
    → is_uuid p.id ≡ true
    → lower p.id ≡ p.id
    → decode_issue_cursor to_base64 from_base64 cursor ≡ ok p
unfolding decode_issue_cursor
decoded to_base64 from_base64 p cursor back made parts time id low =
    rw (back, parts, sym made, text_eq_refl cursor, time, uuid_of_canonical p.id id low)
      (ap (λ (t : Text × List Text). ok (record { created_at = t.0; id = p.id }))
        (ap split_bar back ∙ parts))

-- Decoding the cursor of a position gives the position back, if its time has the form of the
-- database's and its identifier is a UUID in lower case, and if base64url gives back this text.
pub decode_issue_cursor-encode_issue_cursor :
    (to_base64 from_base64 : Text → Text) (p : IssueListPosition)
    → from_base64 (to_base64 (p.created_at ++ b'|' ∷ p.id)) ≡ p.created_at ++ b'|' ∷ p.id
    → is_position_time p.created_at ≡ true
    → is_uuid p.id ≡ true
    → lower p.id ≡ p.id
    → decode_issue_cursor to_base64 from_base64 (encode_issue_cursor to_base64 from_base64 p) ≡ ok p
unfolding encode_issue_cursor
decode_issue_cursor-encode_issue_cursor to_base64 from_base64 p back time id low =
    decoded to_base64 from_base64 p (to_base64 (p.created_at ++ b'|' ∷ p.id)) back refl
      (split_bar-append p.created_at p.id (position_time-no_bar p.created_at time)
        (is_uuid-no_bar p.id id))
      time id low
