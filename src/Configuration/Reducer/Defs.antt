-- ===== src/Configuration/Reducer/Defs.antt =====
-- The initial state, and `configurationReducer` with a case for each action.
use sewn_covers.Prelude.{
  Bool, true, false, not, ◌&&◌, if◌then◌else◌, Option, none, some, List, [], ◌∷◌, any, all,
}
use sewn_covers.Prelude.Result.{Result, ok, throw, ◌>>=◌}
use sewn_covers.Number.{Num, num_eq}
use sewn_covers.Text.{Text, text_eq, is_empty}
use sewn_covers.Text.Patterns.{is_pattern_id, is_public_id, is_hex_color}
use sewn_covers.Configuration.Types.{
  CushionShape, MeasurementUnit, cm, PatternChoice, built_in, custom, solid, ConfigurationState,
  ConfigurationAction, restore_configuration, set_shape, set_width, set_square_width, set_height,
  set_back_width, set_thickness, set_measurement_unit, set_built_in_pattern, set_custom_pattern,
  set_solid_color, set_pattern_scale, set_material_id, set_fit_preference, set_closure_type,
  set_seam_style, restore_draft, clear_custom_pattern, reset_configuration, has_equal_face,
  shape_id, material_id, fit_id, closure_id, seam_id, cushion_shapes,
}
use sewn_covers.Configuration.Measurements.{
  same_unit, is_nullable_committed_measurement, round_measurement, convert_measurement,
  has_valid_measurements_for_shape, measurement_eq,
}
use sewn_covers.Configuration.Scale.{pattern_scale_default, normalize_pattern_scale}
use sewn_covers.Configuration.Color.{normalize_hex_color}
use sewn_covers.Configuration.Cover.{
  default_material_id, default_fit_preference, default_closure_type, default_seam_style,
  has_supported_cover_options,
}

abbrev pub initial_configuration_state : ConfigurationState
initial_configuration_state = record {
  shape = none;
  width = none;
  height = none;
  back_width = none;
  thickness = none;
  unit = cm;
  pattern = none;
  pattern_scale = pattern_scale_default;
  material = default_material_id;
  fit = default_fit_preference;
  closure = default_closure_type;
  seam = default_seam_style;
}

abbrev is_null {ℓ} : {A : Type ℓ} → Option A → Bool
is_null none = true
is_null (some _) = false

-- `===` on every key. The initial value of five of them is null.
unfoldable pub is_initial_configuration : ConfigurationState → Bool
unfolding same_unit text_eq num_eq
is_initial_configuration s =
    is_null s.shape
    && is_null s.width
    && is_null s.height
    && is_null s.back_width
    && is_null s.thickness
    && same_unit s.unit cm
    && is_null s.pattern
    && num_eq s.pattern_scale pattern_scale_default
    && text_eq (material_id s.material) (material_id default_material_id)
    && text_eq (fit_id s.fit) (fit_id default_fit_preference)
    && text_eq (closure_id s.closure) (closure_id default_closure_type)
    && text_eq (seam_id s.seam) (seam_id default_seam_style)

-- `a || b || …` where an operand may throw.
abbrev pub any_of : List (Result Bool) → Result Bool
any_of [] = ok false
any_of (ok true ∷ checks) = ok true
any_of (ok false ∷ checks) = any_of checks
any_of (throw e ∷ checks) = throw e

-- `value === null || roundMeasurement(value) !== value`
unfoldable pub is_unrounded : Option Num → Result Bool
unfolding round_measurement
is_unrounded none = ok true
is_unrounded (some value) = do r ← round_measurement value; ok (not (num_eq r value))

-- `value !== null && roundMeasurement(value) !== value`
unfoldable pub is_unrounded_if_set : Option Num → Result Bool
unfolding is_unrounded
is_unrounded_if_set none = ok false
is_unrounded_if_set (some value) = is_unrounded (some value)

unfoldable pub is_known_shape : Option CushionShape → Bool
unfolding text_eq
is_known_shape none = false
is_known_shape (some s) = any (λ t. text_eq (shape_id t) (shape_id s)) cushion_shapes

-- The three tests on the restored pattern, and that there is one.
unfoldable pub is_restorable_pattern : Option PatternChoice → Bool
unfolding is_empty
is_restorable_pattern none = false
is_restorable_pattern (some (built_in id)) = is_pattern_id id
is_restorable_pattern (some (custom c)) =
    is_public_id c.asset_id && is_public_id c.derivative_id && not (is_empty c.processing_version)
is_restorable_pattern (some (solid color)) = is_hex_color color

-- `configuration.pattern ?? (legacy pattern id)`
unfoldable pub restored_pattern : Option PatternChoice → Option Text → Option PatternChoice
restored_pattern (some p) legacy = some p
restored_pattern none none = none
restored_pattern none (some id) = some (built_in id)

-- `normalizePatternScale(scale) !== scale`
unfoldable pub is_unnormalized_scale : Num → Bool
unfolding measurement_eq
is_unnormalized_scale scale = not (measurement_eq (normalize_pattern_scale scale) (some scale))

-- The operands of the condition under which `restoreConfiguration` keeps the state.
unfoldable pub restore_checks : ConfigurationState → Option Text → List (Result Bool)
restore_checks c legacy =
    ok (not (is_known_shape c.shape))
    ∷ ok (
        not (
          has_valid_measurements_for_shape c.shape c.width c.height c.thickness c.unit
            c.back_width))
    ∷ is_unrounded c.width
    ∷ is_unrounded c.height
    ∷ is_unrounded c.thickness
    ∷ ok (not (is_restorable_pattern (restored_pattern c.pattern legacy)))
    ∷ ok (is_unnormalized_scale c.pattern_scale)
    ∷ ok (not (is_nullable_committed_measurement c.back_width))
    ∷ is_unrounded_if_set c.back_width
    ∷ ok (not (has_supported_cover_options c))
    ∷ []

unfoldable pub is_unrestorable : ConfigurationState → Option Text → Result Bool
unfolding restore_checks
is_unrestorable c legacy = any_of (restore_checks c legacy)

unfoldable pub restore :
    ConfigurationState → ConfigurationState → Option Text → Result ConfigurationState
restore state c legacy = do
  refused ← is_unrestorable c legacy
  ok (if refused then state else record c { pattern = restored_pattern c.pattern legacy })

-- The four conversions, any of which may throw.
unfoldable pub convert_all : ConfigurationState → MeasurementUnit → Result ConfigurationState
convert_all state unit = do
  width ← convert_measurement state.width state.unit unit
  height ← convert_measurement state.height state.unit unit
  back_width ← convert_measurement state.back_width state.unit unit
  thickness ← convert_measurement state.thickness state.unit unit
  ok (record state {
    width = width;
    height = height;
    back_width = back_width;
    thickness = thickness;
    unit = unit;
  })

abbrev pub measurements : ConfigurationState → List (Option Num)
measurements s = s.width ∷ s.height ∷ s.back_width ∷ s.thickness ∷ []

unfoldable pub change_unit : ConfigurationState → MeasurementUnit → Result ConfigurationState
unfolding convert_all
change_unit state unit =
    if same_unit unit state.unit
    then ok state
    else if not (all is_nullable_committed_measurement (measurements state))
    then ok state
    else convert_all state unit

abbrev pub choose_color : ConfigurationState → Option Text → ConfigurationState
choose_color state none = state
choose_color state (some color) = record state { pattern = some (solid color) }

abbrev pub choose_scale : ConfigurationState → Option Num → ConfigurationState
choose_scale state none = state
choose_scale state (some scale) = record state { pattern_scale = scale }

abbrev pub choose_built_in : Option Text → Option PatternChoice
choose_built_in none = none
choose_built_in (some id) = some (built_in id)

abbrev pub without_custom : Option PatternChoice → Option PatternChoice
without_custom (some (custom _)) = none
without_custom p = p

abbrev pub keep_supported : ConfigurationState → ConfigurationState → ConfigurationState
keep_supported state next = if has_supported_cover_options next then next else state

unfoldable pub configuration_reducer :
    ConfigurationState → ConfigurationAction → Result ConfigurationState
unfolding restore change_unit
configuration_reducer state (restore_configuration c legacy) = restore state c legacy
configuration_reducer state (set_shape shape) = ok (
    if has_equal_face shape
    then record state { shape = shape; height = state.width }
    else record state { shape = shape })
configuration_reducer state (set_width width) = ok (
    if not (is_nullable_committed_measurement width)
    then state
    else if has_equal_face state.shape
    then record state { width = width; height = width }
    else record state { width = width })
configuration_reducer state (set_square_width width) = ok (
    if is_nullable_committed_measurement width
    then record state { width = width; height = width }
    else state)
configuration_reducer state (set_height height) = ok (
    if not (has_equal_face state.shape) && is_nullable_committed_measurement height
    then record state { height = height }
    else state)
configuration_reducer state (set_back_width back_width) = ok (
    if is_nullable_committed_measurement back_width
    then record state { back_width = back_width }
    else state)
configuration_reducer state (set_thickness thickness) = ok (
    if is_nullable_committed_measurement thickness
    then record state { thickness = thickness }
    else state)
configuration_reducer state (set_measurement_unit unit) = change_unit state unit
configuration_reducer state (set_built_in_pattern id) =
    ok (record state { pattern = choose_built_in id })
configuration_reducer state (set_custom_pattern pattern) =
    ok (record state { pattern = some (custom pattern) })
configuration_reducer state (set_solid_color color) =
    ok (choose_color state (normalize_hex_color color))
configuration_reducer state (set_pattern_scale scale) =
    ok (choose_scale state (normalize_pattern_scale scale))
configuration_reducer state (set_material_id id) =
    ok (keep_supported state (record state { material = id }))
configuration_reducer state (set_fit_preference fit) =
    ok (keep_supported state (record state { fit = fit }))
configuration_reducer state (set_closure_type closure) =
    ok (keep_supported state (record state { closure = closure }))
configuration_reducer state (set_seam_style seam) =
    ok (keep_supported state (record state { seam = seam }))
configuration_reducer state (restore_draft c) = ok c
configuration_reducer state clear_custom_pattern =
    ok (record state { pattern = without_custom state.pattern })
configuration_reducer state reset_configuration = ok initial_configuration_state
