-- ===== src/Configuration/Measurements/Validity.antt =====
-- What a measurement that is in range, or a set of valid measurements, is known to be.
use sewn_covers.Prelude.{true, Option, none, some, ◌≡◌, refl, arith, and-left, and-right}
use sewn_covers.Number.{Num, zero_num, is_finite, num_lt}
use sewn_covers.Number.Laws.{num_eq→eq}
use sewn_covers.Configuration.Types.{CushionShape, MeasurementUnit, has_equal_face, is_tapered}
use sewn_covers.Configuration.Measurements.Defs.{
  MeasurementField, back_width, height, thickness, width, is_finite_positive_measurement,
  is_measurement_within_range, has_valid_measurements_for_shape, measurement_eq, measurement_lt,
}

-- A measurement in range is a finite positive number.
pub within_range_positive :
    (v : Option Num) (field : MeasurementField) (unit : MeasurementUnit)
    → is_measurement_within_range v field unit ≡ true
    → is_finite_positive_measurement v ≡ true
unfolding is_measurement_within_range
within_range_positive none field unit h = cc
within_range_positive (some v) field unit h = ground arith

pub positive-value :
    (v : Option Num)
    → is_finite_positive_measurement v ≡ true
    → (x : Num) × (v ≡ some x) × (is_finite x ≡ true) × (num_lt zero_num x ≡ true)
unfolding is_finite_positive_measurement
positive-value none h = cc
positive-value (some x) h = (x, refl, and-left _ _ h, and-right _ _ h)

-- `===` on measurements of which the first is positive.
pub measurement_eq→eq :
    (a b : Option Num) → measurement_eq a b ≡ true → is_finite_positive_measurement a ≡ true → a ≡ b
unfolding measurement_eq is_finite_positive_measurement
measurement_eq→eq none b h p = cc
measurement_eq→eq (some x) none h p = cc
measurement_eq→eq (some x) (some y) h p = λ i. some (num_eq→eq x y h (and-right _ _ p) i)

-- What the check of a configuration's measurements establishes.
pub record IsValid (shape : CushionShape) (w h t : Option Num) (unit : MeasurementUnit)
    (b : Option Num) : Type 0 where
  pub width_within : is_measurement_within_range w width unit ≡ true
  pub height_within : is_measurement_within_range h height unit ≡ true
  pub thickness_within : is_measurement_within_range t thickness unit ≡ true
  pub face : has_equal_face (some shape) ≡ true → w ≡ h
  pub back_within :
      is_tapered (some shape) ≡ true → is_measurement_within_range b back_width unit ≡ true
  pub back_narrower : is_tapered (some shape) ≡ true → measurement_lt b w ≡ true

module _ (shape : CushionShape) (w h t : Option Num) (unit : MeasurementUnit) (b : Option Num) where
  pub measurements-IsValid :
      has_valid_measurements_for_shape (some shape) w h t unit b ≡ true → IsValid shape w h t unit b
  unfolding has_valid_measurements_for_shape
  measurements-IsValid v = record {
    width_within = ground arith;
    height_within = ground arith;
    thickness_within = ground arith;
    face = λ e.
        measurement_eq→eq w h (ground arith) (within_range_positive w width unit (ground arith));
    back_within = λ e. ground arith;
    back_narrower = λ e. ground arith;
  }
