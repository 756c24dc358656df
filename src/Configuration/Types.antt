-- ===== src/Configuration/Types.antt =====
-- frontend/context/configuration/types.ts: the choices, the state and its actions.
use sewn_covers.Prelude.{Option, none, some, Bool, true, false, List, [], ◌∷◌}
use sewn_covers.Number.{Num}
use sewn_covers.Text.{Text, codes}

pub data CushionShape : Type 0 where
  box rectangle round square tapered : CushionShape

pub data MeasurementUnit : Type 0 where
  cm inch : MeasurementUnit

pub data MaterialId : Type 0 where
  cotton_canvas linen_blend polyester_weave : MaterialId

pub data FitPreference : Type 0 where
  close relaxed standard : FitPreference

pub data ClosureType : Type 0 where
  envelope slip_on zipper : ClosureType

pub data SeamStyle : Type 0 where
  piped plain : SeamStyle

-- The strings that stand for the choices in drafts, requests and responses.
abbrev pub shape_id : CushionShape → Text
shape_id box = codes "box"
shape_id rectangle = codes "rectangle"
shape_id round = codes "round"
shape_id square = codes "square"
shape_id tapered = codes "tapered"

abbrev pub unit_id : MeasurementUnit → Text
unit_id cm = codes "cm"
unit_id inch = codes "in"

abbrev pub material_id : MaterialId → Text
material_id cotton_canvas = codes "cotton-canvas"
material_id linen_blend = codes "linen-blend"
material_id polyester_weave = codes "polyester-weave"

abbrev pub fit_id : FitPreference → Text
fit_id close = codes "close"
fit_id relaxed = codes "relaxed"
fit_id standard = codes "standard"

abbrev pub closure_id : ClosureType → Text
closure_id envelope = codes "envelope"
closure_id slip_on = codes "slip-on"
closure_id zipper = codes "zipper"

abbrev pub seam_id : SeamStyle → Text
seam_id piped = codes "piped"
seam_id plain = codes "plain"

abbrev pub cushion_shapes : List CushionShape
cushion_shapes = box ∷ rectangle ∷ round ∷ square ∷ tapered ∷ []

abbrev pub measurement_units : List MeasurementUnit
measurement_units = cm ∷ inch ∷ []

abbrev pub material_ids : List MaterialId
material_ids = cotton_canvas ∷ linen_blend ∷ polyester_weave ∷ []

abbrev pub fit_preferences : List FitPreference
fit_preferences = close ∷ relaxed ∷ standard ∷ []

abbrev pub closure_types : List ClosureType
closure_types = envelope ∷ slip_on ∷ zipper ∷ []

abbrev pub seam_styles : List SeamStyle
seam_styles = piped ∷ plain ∷ []

-- `unavailableReason` of a custom pattern.
pub data UnavailableReason : Type 0 where
  deleted unavailable : UnavailableReason

pub record CustomPattern : Type 0 where
  pub asset_id : Text
  pub derivative_id : Text
  pub processing_version : Text
  pub label : Text
  pub preview_url : Option Text
  pub unavailable_reason : Option UnavailableReason

pub data PatternChoice : Type 0 where
  built_in : Text → PatternChoice
  custom : CustomPattern → PatternChoice
  solid : Text → PatternChoice

pub record ConfigurationState : Type 0 where
  pub shape : Option CushionShape
  pub width : Option Num
  pub height : Option Num
  pub back_width : Option Num
  pub thickness : Option Num
  pub unit : MeasurementUnit
  pub pattern : Option PatternChoice
  pub pattern_scale : Num
  pub material : MaterialId
  pub fit : FitPreference
  pub closure : ClosureType
  pub seam : SeamStyle

-- `restore_configuration` takes the configuration and the `patternId` that one from before the
-- pattern choices may carry beside its fields.
pub data ConfigurationAction : Type 0 where
  restore_configuration : ConfigurationState → Option Text → ConfigurationAction
  set_shape : Option CushionShape → ConfigurationAction
  set_width set_square_width set_height : Option Num → ConfigurationAction
  set_back_width set_thickness : Option Num → ConfigurationAction
  set_measurement_unit : MeasurementUnit → ConfigurationAction
  set_built_in_pattern : Option Text → ConfigurationAction
  set_custom_pattern : CustomPattern → ConfigurationAction
  set_solid_color : Text → ConfigurationAction
  set_pattern_scale : Num → ConfigurationAction
  set_material_id : MaterialId → ConfigurationAction
  set_fit_preference : FitPreference → ConfigurationAction
  set_closure_type : ClosureType → ConfigurationAction
  set_seam_style : SeamStyle → ConfigurationAction
  restore_draft : ConfigurationState → ConfigurationAction
  clear_custom_pattern reset_configuration : ConfigurationAction

unfoldable pub get_built_in_pattern_id : Option PatternChoice → Option Text
get_built_in_pattern_id (some (built_in id)) = some id
get_built_in_pattern_id _ = none

unfoldable pub get_solid_color : Option PatternChoice → Option Text
get_solid_color (some (solid color)) = some color
get_solid_color _ = none

-- `shape === "square" || shape === "round"`: the face is as high as it is wide.
abbrev pub has_equal_face : Option CushionShape → Bool
has_equal_face (some square) = true
has_equal_face (some round) = true
has_equal_face _ = false

abbrev pub is_tapered : Option CushionShape → Bool
is_tapered (some tapered) = true
is_tapered _ = false
