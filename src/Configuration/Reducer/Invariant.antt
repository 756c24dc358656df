-- ===== src/Configuration/Reducer/Invariant.antt =====
-- What holds of every configuration that the reducer reaches.
use sewn_covers.Prelude.{
  true, Option, none, some, List, [], ◌∷◌, ◌≡◌, inl, inr, refl, ap, sym, ◌∙◌, arith, Bool-cases,
  Option-cases,
}
use sewn_covers.Prelude.Result.{Result, ok, ◌>>=◌, >>=-eq-ok}
use sewn_covers.Number.{Num}
use sewn_covers.Text.{Text}
use sewn_covers.Text.Patterns.{is_hex_color}
use sewn_covers.Configuration.Types.{
  MeasurementUnit, PatternChoice, built_in, custom, solid, ConfigurationState, ConfigurationAction,
  restore_configuration, set_shape, set_width, set_square_width, set_height, set_measurement_unit,
  set_built_in_pattern, set_custom_pattern, set_solid_color, set_pattern_scale, set_material_id,
  set_fit_preference, set_closure_type, set_seam_style, restore_draft, clear_custom_pattern,
  reset_configuration, has_equal_face,
}
use sewn_covers.Configuration.Measurements.{convert_measurement}
use sewn_covers.Configuration.Scale.{normalize_pattern_scale}
use sewn_covers.Configuration.Scale.Steps.{normalize_idempotent, normalize-default}
use sewn_covers.Configuration.Color.{normalize_hex_color}
use sewn_covers.Configuration.Color.Normal.{normalize-is_hex_color}
use sewn_covers.Configuration.Cover.{has_supported_cover_options}
use sewn_covers.Configuration.Reducer.Defs.{
  configuration_reducer, restore, change_unit, initial_configuration_state, is_restorable_pattern,
  choose_color, choose_scale, keep_supported, without_custom,
}
use sewn_covers.Configuration.Reducer.Units.{IsConversion, change_unit-eq-ok}
use sewn_covers.Configuration.Reducer.Restore.{
  IsRestorable, restore-eq-ok, restored, restorable_scale, shape_is_set, IsRestorable-IsValid,
}

-- A solid colour is in the normal form.
abbrev pub IsColored : Option PatternChoice → Type 0
IsColored (some (solid color)) = is_hex_color color ≡ true
IsColored _ = Unit {0}

pub record IsWellFormed (s : ConfigurationState) : Type 0 where
  pub equal_face : has_equal_face s.shape ≡ true → s.width ≡ s.height
  pub scale : normalize_pattern_scale s.pattern_scale ≡ some s.pattern_scale
  pub color : IsColored s.pattern

-- A draft is validated before it is restored; the other actions need no check from outside.
abbrev pub IsChecked : ConfigurationAction → Type 0
IsChecked (restore_draft c) = IsWellFormed c
IsChecked _ = Unit {0}

pub initial-IsWellFormed : IsWellFormed initial_configuration_state
initial-IsWellFormed = record { equal_face = λ e. refl; scale = normalize-default; color = tt }

restorable-IsColored : (p : Option PatternChoice) → is_restorable_pattern p ≡ true → IsColored p
unfolding is_restorable_pattern
restorable-IsColored none h = tt
restorable-IsColored (some (built_in id)) h = tt
restorable-IsColored (some (custom c)) h = tt
restorable-IsColored (some (solid color)) h = h

restored-IsWellFormed :
    (c : ConfigurationState) (legacy : Option Text)
    → IsRestorable c legacy
    → IsWellFormed (restored c legacy)
restored-IsWellFormed c legacy r =
    let (s, e) = shape_is_set c legacy r.known in
    let v = IsRestorable-IsValid c legacy s e r.valid in
    record {
      equal_face = λ h. v.face (rw (← e) h);
      scale = restorable_scale r;
      color = restorable-IsColored _ r.pattern;
    }

ok_injective : (a b : Option Num) → ◌≡◌ {A = Result (Option Num)} (ok a) (ok b) → a ≡ b
ok_injective a b h = cc

-- Changing the unit converts equal measurements to equal ones.
change_unit-IsWellFormed :
    (s : ConfigurationState) (unit : MeasurementUnit) (next : ConfigurationState)
    → IsWellFormed s
    → change_unit s unit ≡ ok next
    → IsWellFormed next
change_unit-IsWellFormed s unit next v h = elim (change_unit-eq-ok s unit next h) [
  | inl same ↦ rw same v
  | inr c ↦ rw c.result (record {
    equal_face = λ e. converted_alike c (v.equal_face e);
    scale = v.scale;
    color = v.color;
  })
]
  where
    converted_alike : (c : IsConversion s unit next) → s.width ≡ s.height → c.w ≡ c.h
    converted_alike c e =
        ok_injective c.w c.h
          (sym c.width ∙ ap (λ m. convert_measurement m s.unit unit) e ∙ c.height)

choose_color-IsWellFormed :
    (s : ConfigurationState) (color : Text)
    → IsWellFormed s
    → IsWellFormed (choose_color s (normalize_hex_color color))
choose_color-IsWellFormed s color v = elim (Option-cases (normalize_hex_color color)) [
  | inl refused ↦ rw refused v
  | inr (c, found) ↦ rw found (record {
    equal_face = v.equal_face;
    scale = v.scale;
    color = normalize-is_hex_color color c found;
  })
]

choose_scale-IsWellFormed :
    (s : ConfigurationState) (scale : Num)
    → IsWellFormed s
    → IsWellFormed (choose_scale s (normalize_pattern_scale scale))
choose_scale-IsWellFormed s scale v = elim (Option-cases (normalize_pattern_scale scale)) [
  | inl refused ↦ rw refused v
  | inr (n, found) ↦ rw found (record {
    equal_face = v.equal_face;
    scale = normalize_idempotent scale n found;
    color = v.color;
  })
]

supported-IsWellFormed :
    (s next : ConfigurationState)
    → IsWellFormed s
    → IsWellFormed next
    → IsWellFormed (keep_supported s next)
supported-IsWellFormed s next v w = elim (Bool-cases (has_supported_cover_options next)) [
  | inl supported ↦ rw supported w
  | inr unsupported ↦ rw unsupported v
]

restore-IsWellFormed :
    (s c : ConfigurationState) (legacy : Option Text) (next : ConfigurationState)
    → IsWellFormed s
    → restore s c legacy ≡ ok next
    → IsWellFormed next
restore-IsWellFormed s c legacy next v h = elim (restore-eq-ok s c legacy next h) [
  | inl same ↦ rw same v
  | inr (r, same) ↦ rw same (restored-IsWellFormed c legacy r)
]

without_custom-IsColored : (p : Option PatternChoice) → IsColored p → IsColored (without_custom p)
without_custom-IsColored none h = tt
without_custom-IsColored (some (built_in id)) h = tt
without_custom-IsColored (some (custom c)) h = tt
without_custom-IsColored (some (solid color)) h = h

state_of_ok : (a b : ConfigurationState) → ◌≡◌ {A = Result ConfigurationState} (ok a) (ok b) → b ≡ a
state_of_ok a b h = cc

reducer-IsWellFormed :
    (s : ConfigurationState) (a : ConfigurationAction) (next : ConfigurationState)
    → IsWellFormed s
    → IsChecked a
    → configuration_reducer s a ≡ ok next
    → IsWellFormed next
unfolding configuration_reducer
reducer-IsWellFormed s (restore_configuration c legacy) next v k h =
    restore-IsWellFormed s c legacy next v h
reducer-IsWellFormed s (set_shape shape) next v k h = ground arith
reducer-IsWellFormed s (set_width width) next v k h = ground arith
reducer-IsWellFormed s (set_square_width width) next v k h = ground arith
reducer-IsWellFormed s (set_height height) next v k h = ground arith
reducer-IsWellFormed s (set_measurement_unit unit) next v k h =
    change_unit-IsWellFormed s unit next v h
reducer-IsWellFormed s (set_solid_color color) next v k h =
    rw (state_of_ok _ _ h) (choose_color-IsWellFormed s color v)
reducer-IsWellFormed s (set_pattern_scale scale) next v k h =
    rw (state_of_ok _ _ h) (choose_scale-IsWellFormed s scale v)
reducer-IsWellFormed s (restore_draft c) next v k h = rw (state_of_ok _ _ h) k
reducer-IsWellFormed s reset_configuration next v k h = rw (state_of_ok _ _ h) initial-IsWellFormed
reducer-IsWellFormed s (set_built_in_pattern none) next v k h = ground arith
reducer-IsWellFormed s (set_built_in_pattern (some id)) next v k h = ground arith
reducer-IsWellFormed s (set_custom_pattern c) next v k h = ground arith
reducer-IsWellFormed s (set_material_id id) next v k h = rw (state_of_ok _ _ h) (
    supported-IsWellFormed s (record s { material = id }) v
      (record { equal_face = v.equal_face; scale = v.scale; color = v.color }))
reducer-IsWellFormed s (set_fit_preference fit) next v k h = rw (state_of_ok _ _ h) (
    supported-IsWellFormed s (record s { fit = fit }) v
      (record { equal_face = v.equal_face; scale = v.scale; color = v.color }))
reducer-IsWellFormed s (set_closure_type closure) next v k h = rw (state_of_ok _ _ h) (
    supported-IsWellFormed s (record s { closure = closure }) v
      (record { equal_face = v.equal_face; scale = v.scale; color = v.color }))
reducer-IsWellFormed s (set_seam_style seam) next v k h = rw (state_of_ok _ _ h) (
    supported-IsWellFormed s (record s { seam = seam }) v
      (record { equal_face = v.equal_face; scale = v.scale; color = v.color }))
reducer-IsWellFormed s clear_custom_pattern next v k h = rw (state_of_ok _ _ h) (record {
  equal_face = v.equal_face;
  scale = v.scale;
  color = without_custom-IsColored s.pattern v.color;
})
reducer-IsWellFormed s a next v k h = ground arith

-- Actions dispatched one after the other; one that throws ends the run.
unfoldable pub run : ConfigurationState → List ConfigurationAction → Result ConfigurationState
run s [] = ok s
run s (a ∷ rest) = configuration_reducer s a >>= λ next. run next rest

abbrev pub AreChecked : List ConfigurationAction → Type 0
AreChecked [] = Unit {0}
AreChecked (a ∷ rest) = IsChecked a × AreChecked rest

-- If every draft that is restored on the way is well formed itself, a sequence of actions that does
-- not throw keeps a well-formed configuration well formed: a square or round face is as high as it is
-- wide, the pattern scale is its own normal form, and a solid colour is `#` and six upper-case digits.
pub run-IsWellFormed :
    (s : ConfigurationState) (actions : List ConfigurationAction) (next : ConfigurationState)
    → IsWellFormed s
    → AreChecked actions
    → run s actions ≡ ok next
    → IsWellFormed next
unfolding run
run-IsWellFormed s [] next v k h = rw (state_of_ok _ _ h) v
run-IsWellFormed s (a ∷ rest) next v (k, ks) h =
    let (mid, first, later) = >>=-eq-ok (configuration_reducer s a) _ h in
    run-IsWellFormed mid rest next (reducer-IsWellFormed s a mid v k first) ks later
