-- ===== src/Configuration/Reducer/Units.antt =====
-- `setMeasurementUnit`: the four measurements are converted together.
use sewn_covers.Prelude.{Option, ◌≡◌, ◌⊎◌, inl, inr, arith, all, Bool-cases}
use sewn_covers.Prelude.Result.{ok, >>=-eq-ok}
use sewn_covers.Number.{Num}
use sewn_covers.Configuration.Types.{MeasurementUnit, ConfigurationState}
use sewn_covers.Configuration.Measurements.{
  same_unit, convert_measurement, is_nullable_committed_measurement,
}
use sewn_covers.Configuration.Reducer.Defs.{convert_all, change_unit, measurements}

-- The state after a conversion that gave these measurements.
abbrev pub with_measurements :
    ConfigurationState
    → MeasurementUnit
    → Option Num
    → Option Num
    → Option Num
    → Option Num
    → ConfigurationState
with_measurements s unit w h b t = record s {
  width = w;
  height = h;
  back_width = b;
  thickness = t;
  unit = unit;
}

pub record IsConversion (s : ConfigurationState) (unit : MeasurementUnit)
    (next : ConfigurationState) : Type 0 where
  pub w : Option Num
  pub h : Option Num
  pub b : Option Num
  pub t : Option Num
  pub width : convert_measurement s.width s.unit unit ≡ ok w
  pub height : convert_measurement s.height s.unit unit ≡ ok h
  pub back_width : convert_measurement s.back_width s.unit unit ≡ ok b
  pub thickness : convert_measurement s.thickness s.unit unit ≡ ok t
  pub result : next ≡ with_measurements s unit w h b t

convert_all-IsConversion :
    (s : ConfigurationState) (unit : MeasurementUnit) (next : ConfigurationState)
    → convert_all s unit ≡ ok next
    → IsConversion s unit next
unfolding convert_all
convert_all-IsConversion s unit next e =
    let (w, ew, e1) = >>=-eq-ok (convert_measurement s.width s.unit unit) _ e in
    let (h, eh, e2) = >>=-eq-ok (convert_measurement s.height s.unit unit) _ e1 in
    let (b, eb, e3) = >>=-eq-ok (convert_measurement s.back_width s.unit unit) _ e2 in
    let (t, et, e4) = >>=-eq-ok (convert_measurement s.thickness s.unit unit) _ e3 in
    record {
      w = w;
      h = h;
      b = b;
      t = t;
      width = ew;
      height = eh;
      back_width = eb;
      thickness = et;
      result = cc;
    }

-- A change of unit keeps the state or converts all four measurements.
pub change_unit-eq-ok :
    (s : ConfigurationState) (unit : MeasurementUnit) (next : ConfigurationState)
    → change_unit s unit ≡ ok next
    → (next ≡ s) ⊎ IsConversion s unit next
unfolding change_unit
change_unit-eq-ok s unit next e = elim (Bool-cases (same_unit unit s.unit)) [
  | inl same ↦ inl (ground arith)
  | inr other ↦ elim (Bool-cases (all is_nullable_committed_measurement (measurements s))) [
    | inl committed ↦ inr (convert_all-IsConversion s unit next (ground arith))
    | inr refused ↦ inl (ground arith)
  ]
]
