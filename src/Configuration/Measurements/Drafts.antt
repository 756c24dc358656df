-- ===== src/Configuration/Measurements/Drafts.antt =====
-- `parseMeasurementDraft`: what the visitor typed in a number field.
use sewn_covers.Prelude.{
  ℕ, ◌+◌, ◌-◌, ◌*◌, Bool, false, not, ◌&&◌, ◌||◌, ltb, ◌==◌, if◌then◌else◌, Option, none, some, [],
  ◌∷◌, ◌++◌, length, all,
}
use sewn_covers.Prelude.Result.{Result, ok, ◌>>=◌}
use sewn_covers.Number.{Num, zero_num, is_finite, num_lt, num_le, decimal}
use sewn_covers.Text.{Text, trim, is_empty}
use sewn_covers.Text.Patterns.{is_digit}
use sewn_covers.Configuration.Types.{MeasurementUnit}
use sewn_covers.Configuration.Measurements.Defs.{
  MeasurementField, measurement_ranges_cm, to_centimetres, is_measurement_within_range,
  round_measurement,
}

pub data MeasurementDraftIssue : Type 0 where
  above_maximum below_minimum incomplete invalid not_positive precision required :
      MeasurementDraftIssue

-- `{ issue, value }`: exactly one of the two is not null.
pub record MeasurementDraftResult : Type 0 where
  pub issue : Option MeasurementDraftIssue
  pub value : Option Num

abbrev pub rejected : MeasurementDraftIssue → Result MeasurementDraftResult
rejected issue = ok (record { issue = some issue; value = none })

abbrev pub is_separator : ℕ → Bool
is_separator c = c == b'.' || c == b','

-- The digits at the front, and what follows them.
unfoldable pub whole_part : Text → Text
unfolding is_digit
whole_part [] = []
whole_part (c ∷ s) = if is_digit c then c ∷ whole_part s else []

unfoldable pub after_whole : Text → Text
unfolding is_digit
after_whole [] = []
after_whole (c ∷ s) = if is_digit c then after_whole s else c ∷ s

-- /^(?:\d+[.,]|[.,])$/
unfoldable pub is_trailing_decimal : Text → Bool
unfolding after_whole
is_trailing_decimal s = elim (after_whole s) [ [] ↦ false | c ∷ r ↦ is_separator c && is_empty r ]

-- /^(?:\d+(?:[.,]\d+)?|[.,]\d+)$/
unfoldable pub is_complete_decimal : Text → Bool
unfolding after_whole whole_part is_digit
is_complete_decimal s = elim (after_whole s) [
  | [] ↦ not (is_empty (whole_part s))
  | c ∷ r ↦ is_separator c && (not (is_empty r) && all is_digit r)
]

-- `split(/[.,]/, 2)[1]`, undefined where there is no separator, on a complete decimal.
unfoldable pub fractional_part : Text → Option Text
unfolding after_whole
fractional_part s = elim (after_whole s) [ [] ↦ none | c ∷ r ↦ some r ]

-- The integer that decimal digits stand for.
unfoldable pub digits_value : ℕ → Text → ℕ
digits_value acc [] = acc
digits_value acc (c ∷ s) = digits_value (10 * acc + (c - b'0')) s

-- `Number(s.replace(",", "."))` of a complete decimal.
unfoldable pub decimal_value : Text → Num
unfolding whole_part fractional_part digits_value decimal
decimal_value s = elim (fractional_part s) [
  | none ↦ decimal (digits_value 0 (whole_part s)) 0
  | some r ↦ decimal (digits_value 0 (whole_part s ++ r)) (length r)
]

abbrev is_too_precise : Option Text → Bool
is_too_precise none = false
is_too_precise (some r) = ltb 2 (length r)

unfoldable pub parse_measurement_draft :
    Text → MeasurementField → MeasurementUnit → Result MeasurementDraftResult
unfolding trim is_empty is_trailing_decimal is_complete_decimal fractional_part decimal_value
parse_measurement_draft draft field unit =
    let trimmed = trim draft in
    let value = decimal_value trimmed in
    let range = measurement_ranges_cm field in
    let accepted : Result MeasurementDraftResult = (do
      r ← round_measurement value
      ok (record { issue = none; value = some r })) in
    if is_empty trimmed
    then rejected required
    else if is_trailing_decimal trimmed
    then rejected incomplete
    else if not (is_complete_decimal trimmed)
    then rejected invalid
    else if is_too_precise (fractional_part trimmed)
    then rejected precision
    else if not (is_finite value)
    then rejected invalid
    else if num_le value zero_num
    then rejected not_positive
    else if num_lt (to_centimetres value unit) range.min
    then rejected below_minimum
    else if not (is_measurement_within_range (some value) field unit)
    then rejected above_maximum
    else accepted
