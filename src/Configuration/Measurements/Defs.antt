-- ===== src/Configuration/Measurements/Defs.antt =====
-- Rounding, conversion and ranges of measurements.
use sewn_covers.Prelude.{◌^◌, Bool, true, false, not, ◌&&◌, ◌||◌, if◌then◌else◌, Option, none, some}
use sewn_covers.Prelude.Result.{Result, ok, throw, range_error, ◌>>=◌}
use sewn_covers.Number.{
  Num, zero_num, fin, is_finite, num_eq, num_lt, num_le, add, mul, div, math_round, math_ceil,
  math_floor, decimal,
}
use sewn_covers.Configuration.Types.{
  CushionShape, MeasurementUnit, cm, inch, has_equal_face, is_tapered,
}

pub data MeasurementField : Type 0 where
  back_width height thickness width : MeasurementField

pub record MeasurementRange : Type 0 where
  pub max : Num
  pub min : Num

unfoldable pub centimetres_per_inch : Num
centimetres_per_inch = decimal 254 2

-- 10 ** MEASUREMENT_DECIMAL_PLACES
unfoldable pub precision_factor : Num
precision_factor = decimal 100 0

-- Number.EPSILON, which is 2^-52.
unfoldable pub epsilon : Num
epsilon = fin false (2 ^ 52) 970

unfoldable pub measurement_ranges_cm : MeasurementField → MeasurementRange
measurement_ranges_cm back_width = record { max = decimal 300 0; min = decimal 10 0 }
measurement_ranges_cm height = record { max = decimal 300 0; min = decimal 10 0 }
measurement_ranges_cm thickness = record { max = decimal 60 0; min = decimal 1 0 }
measurement_ranges_cm width = record { max = decimal 300 0; min = decimal 10 0 }

unfoldable pub is_finite_positive_measurement : Option Num → Bool
is_finite_positive_measurement none = false
is_finite_positive_measurement (some value) = is_finite value && num_lt zero_num value

unfoldable pub is_nullable_committed_measurement : Option Num → Bool
unfolding is_finite_positive_measurement
is_nullable_committed_measurement none = true
is_nullable_committed_measurement (some value) = is_finite_positive_measurement (some value)

unfoldable pub rounded : Num → Num
unfolding epsilon precision_factor
rounded value = div (math_round (mul (add value epsilon) precision_factor)) precision_factor

unfoldable pub round_measurement : Num → Result Num
unfolding rounded
round_measurement value = if not (is_finite value) then throw range_error else ok (rounded value)

unfoldable pub converted : Num → MeasurementUnit → Num
unfolding centimetres_per_inch
converted value inch = mul value centimetres_per_inch
converted value cm = div value centimetres_per_inch

unfoldable pub same_unit : MeasurementUnit → MeasurementUnit → Bool
same_unit cm cm = true
same_unit inch inch = true
same_unit _ _ = false

unfoldable pub convert_measurement :
    Option Num → MeasurementUnit → MeasurementUnit → Result (Option Num)
unfolding same_unit converted round_measurement
convert_measurement none from_unit to_unit = ok none
convert_measurement (some value) from_unit to_unit =
    if same_unit from_unit to_unit
    then ok (some value)
    else if not (is_finite value)
    then throw range_error
    else (do r ← round_measurement (converted value from_unit); ok (some r))

unfoldable pub to_centimetres : Num → MeasurementUnit → Num
unfolding centimetres_per_inch
to_centimetres value cm = value
to_centimetres value inch = mul value centimetres_per_inch

unfoldable pub is_measurement_within_range : Option Num → MeasurementField → MeasurementUnit → Bool
unfolding is_finite_positive_measurement to_centimetres measurement_ranges_cm
is_measurement_within_range none field unit = false
is_measurement_within_range (some value) field unit =
    if is_finite_positive_measurement (some value)
    then (let centimetres = to_centimetres value unit in
        let range = measurement_ranges_cm field in
        num_le range.min centimetres && num_le centimetres range.max)
    else false

-- `a === b` and `a < b` on measurements that may be null; `null < b` is `0 < b` in JavaScript, but
-- the code compares only after both were found in range.
unfoldable pub measurement_eq : Option Num → Option Num → Bool
measurement_eq none none = true
measurement_eq (some a) (some b) = num_eq a b
measurement_eq _ _ = false

unfoldable pub measurement_lt : Option Num → Option Num → Bool
measurement_lt (some a) (some b) = num_lt a b
measurement_lt _ _ = false

unfoldable pub has_valid_measurements_for_shape :
    Option CushionShape → Option Num → Option Num → Option Num → MeasurementUnit → Option Num → Bool
unfolding measurement_eq measurement_lt
has_valid_measurements_for_shape none w h t unit b = false
has_valid_measurements_for_shape (some shape) w h t unit b =
    if not (is_measurement_within_range w width unit && is_measurement_within_range h height unit)
      || not (is_measurement_within_range t thickness unit)
    then false
    else if has_equal_face (some shape) && not (measurement_eq w h)
    then false
    else not (is_tapered (some shape))
      || is_measurement_within_range b back_width unit && measurement_lt b w

unfoldable pub get_measurement_range : MeasurementField → MeasurementUnit → MeasurementRange
unfolding measurement_ranges_cm precision_factor centimetres_per_inch
get_measurement_range field cm = measurement_ranges_cm field
get_measurement_range field inch =
    let range = measurement_ranges_cm field in
    record {
      min =
          div (math_ceil (mul (div range.min centimetres_per_inch) precision_factor))
            precision_factor;
      max =
          div (math_floor (mul (div range.max centimetres_per_inch) precision_factor))
            precision_factor;
    }
