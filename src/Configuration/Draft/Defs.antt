-- ===== src/Configuration/Draft/Defs.antt =====
-- A browser draft is sanitised field by field.
use sewn_covers.Prelude.{
  Bool, false, not, ◌&&◌, leb, if◌then◌else◌, Option, none, some, List, find, take, length, or_else,
}
use sewn_covers.Number.{Num, num_eq}
use sewn_covers.Text.{Text, codes, text_eq, trim, is_empty}
use sewn_covers.Text.Patterns.{is_pattern_id, is_public_id, is_hex_color}
use sewn_covers.Value.{Value, num, str, obj, lookup}
use sewn_covers.Configuration.Types.{
  CushionShape, cm, inch, PatternChoice, built_in, custom, solid, ConfigurationState, shape_id,
  material_id, fit_id, closure_id, seam_id, cushion_shapes, has_equal_face,
}
use sewn_covers.Configuration.Measurements.{is_finite_positive_measurement, rounded}
use sewn_covers.Configuration.Scale.{normalize_pattern_scale, pattern_scale_default}
use sewn_covers.Configuration.Cover.{
  material_options, fit_options, closure_options, seam_options, default_material_id,
  default_fit_preference, default_closure_type, default_seam_style,
}
use sewn_covers.Configuration.Reducer.{initial_configuration_state}

-- The rounding cannot throw behind the test for a finite number.
unfoldable pub draft_measurement : Value → Option Num
draft_measurement (num n) =
    if is_finite_positive_measurement (some n) && num_eq (rounded n) n then some n else none
draft_measurement _ = none

-- `value === id`
unfoldable pub is_text : Value → Text → Bool
unfolding text_eq
is_text (str s) t = text_eq s t
is_text _ t = false

module _ {A : Type 0} (id : A → Text) where
  unfoldable pub draft_option : List A → Value → A → A
  unfolding is_text
  draft_option options value fallback = or_else (find (λ a. is_text value (id a)) options) fallback

-- `isOneOf(CUSHION_SHAPES, value.shape) ? value.shape : null`
unfoldable pub draft_shape : Value → Option CushionShape
unfolding is_text
draft_shape value = find (λ s. is_text value (shape_id s)) cushion_shapes

abbrev pub text_matching : (Text → Bool) → Value → Option Text
text_matching pattern (str s) = if pattern s then some s else none
text_matching pattern _ = none

abbrev pub is_processing_version : Text → Bool
is_processing_version s = not (is_empty s) && leb (length s) 80

abbrev pub default_label : Text
default_label = codes "Custom pattern"

abbrev pub non_empty_label : Text → Text
non_empty_label s = if is_empty s then default_label else s

unfoldable pub draft_label : Value → Text
unfolding trim is_empty
draft_label (str s) = non_empty_label (take 120 (trim s))
draft_label _ = default_label

abbrev pub custom_of : Option Text → Option Text → Option Text → Text → Option PatternChoice
custom_of (some asset) (some derivative) (some version) label = some (
    custom (record {
      asset_id = asset;
      derivative_id = derivative;
      processing_version = version;
      label = label;
      preview_url = none;
      unavailable_reason = none;
    }))
custom_of _ _ _ label = none

abbrev pub built_in_of : Option Text → Option PatternChoice
built_in_of none = none
built_in_of (some id) = some (built_in id)

abbrev pub solid_of : Option Text → Option PatternChoice
solid_of none = none
solid_of (some color) = some (solid color)

-- The three kinds are tested one after the other; the kind decides which can succeed.
unfoldable pub draft_pattern : Value → Option PatternChoice
unfolding is_text lookup
draft_pattern (obj fs) =
    let kind = lookup "kind" fs in
    if is_text kind (codes "built-in")
    then built_in_of (text_matching is_pattern_id (lookup "patternId" fs))
    else if is_text kind (codes "solid")
    then solid_of (text_matching is_hex_color (lookup "color" fs))
    else if is_text kind (codes "custom")
    then custom_of (text_matching is_public_id (lookup "assetId" fs))
        (text_matching is_public_id (lookup "derivativeId" fs))
        (text_matching is_processing_version (lookup "processingVersion" fs))
        (draft_label (lookup "label" fs))
    else none
draft_pattern _ = none

abbrev pub kept_scale : Num → Option Num → Num
kept_scale n none = pattern_scale_default
kept_scale n (some normal) = if num_eq normal n then normal else pattern_scale_default

unfoldable pub draft_scale : Value → Num
draft_scale (num n) = kept_scale n (normalize_pattern_scale n)
draft_scale _ = pattern_scale_default

unfoldable pub sanitize_draft_configuration : Value → ConfigurationState
unfolding lookup
sanitize_draft_configuration (obj fs) =
    let shape = draft_shape (lookup "shape" fs) in
    let width = draft_measurement (lookup "width" fs) in
    record {
      shape = shape;
      width = width;
      height = if has_equal_face shape then width else draft_measurement (lookup "height" fs);
      back_width = draft_measurement (lookup "backWidth" fs);
      thickness = draft_measurement (lookup "thickness" fs);
      unit = if is_text (lookup "unit" fs) (codes "in") then inch else cm;
      pattern = draft_pattern (lookup "pattern" fs);
      pattern_scale = draft_scale (lookup "patternScale" fs);
      material =
          draft_option material_id material_options (lookup "materialId" fs) default_material_id;
      fit = draft_option fit_id fit_options (lookup "fitPreference" fs) default_fit_preference;
      closure =
          draft_option closure_id closure_options (lookup "closureType" fs) default_closure_type;
      seam = draft_option seam_id seam_options (lookup "seamStyle" fs) default_seam_style;
    }
sanitize_draft_configuration _ = initial_configuration_state
