-- ===== src/Design/Request.antt =====
-- `mapConfigurationToCreateDesign` and `responseMatchesRequest` of
-- frontend/services/design-save.ts, and the request as JSON.
use sewn_covers.Prelude.{
  Bool, true, false, not, ◌&&◌, ◌||◌, if◌then◌else◌, Option, none, some, is_some,
}
use sewn_covers.Prelude.Result.{Result, ok, throw, invalid_reviewed_configuration}
use sewn_covers.Number.{Num, num_eq, has_at_most_decimal_places}
use sewn_covers.Text.{Text, text_eq}
use sewn_covers.Text.Patterns.{is_pattern_id, is_hex_color}
use sewn_covers.Value.{Value, null, str, num, Fields, end, field, ◌>>=◌}
use sewn_covers.Configuration.{
  CushionShape, ConfigurationState, PatternChoice, built_in, get_solid_color, is_tapered, shape_id,
  unit_id, material_id, fit_id, closure_id, seam_id,
}
use sewn_covers.Configuration.Measurements.{has_valid_measurements_for_shape, measurement_eq}
use sewn_covers.Configuration.Scale.{normalize_pattern_scale}
use sewn_covers.Configuration.Cover.{has_supported_cover_options}
use sewn_covers.Design.Contract.{CreateDesignRequest, DesignResponse, read_design_response}

-- The pattern id of a built-in pattern, or the one that an older configuration carries.
unfoldable pub source_pattern_id : Option PatternChoice → Option Text → Option Text
source_pattern_id (some (built_in id)) legacy = some id
source_pattern_id _ legacy = legacy

abbrev pub is_absent_or : (Text → Bool) → Option Text → Bool
is_absent_or pattern none = true
is_absent_or pattern (some s) = pattern s

abbrev pub has_cents : Option Num → Bool
has_cents none = true
has_cents (some n) = has_at_most_decimal_places n 2

-- Exactly one of the pattern id and the colour, and that one has its form.
abbrev pub is_single_source : Option Text → Option Text → Bool
is_single_source pattern color =
    (is_some pattern && not (is_some color) || not (is_some pattern) && is_some color)
    && is_absent_or is_pattern_id pattern
    && is_absent_or is_hex_color color

-- The tests of the configuration that do not read the source of the pattern.
unfoldable pub is_ready : ConfigurationState → CushionShape → Num → Num → Num → Num → Bool
unfolding has_valid_measurements_for_shape has_supported_cover_options
is_ready c shape width height thickness scale =
    has_valid_measurements_for_shape (some shape) (some width) (some height) (some thickness) c.unit
      c.back_width
    && has_supported_cover_options c
    && has_at_most_decimal_places width 2
    && has_at_most_decimal_places height 2
    && has_cents c.back_width
    && has_at_most_decimal_places thickness 2
    && num_eq scale c.pattern_scale

unfoldable pub request_of :
    ConfigurationState → Option Text → CushionShape → Num → Num → Num → Num → CreateDesignRequest
unfolding source_pattern_id get_solid_color
request_of c legacy shape width height thickness scale = record {
  shape = shape;
  width = width;
  height = height;
  thickness = thickness;
  unit = c.unit;
  pattern_id = source_pattern_id c.pattern legacy;
  solid_color = get_solid_color c.pattern;
  pattern_scale = scale;
  back_width = if is_tapered (some shape) then c.back_width else none;
  material = c.material;
  fit = c.fit;
  closure = c.closure;
  seam = c.seam;
}

-- The request, where the configuration is complete and valid.
unfoldable pub create_request : ConfigurationState → Option Text → Option CreateDesignRequest
unfolding source_pattern_id get_solid_color is_ready request_of
create_request c legacy = do
  shape ← c.shape
  width ← c.width
  height ← c.height
  thickness ← c.thickness
  scale ← normalize_pattern_scale c.pattern_scale
  (if is_single_source (source_pattern_id c.pattern legacy) (get_solid_color c.pattern)
        && is_ready c shape width height thickness scale
      then some (request_of c legacy shape width height thickness scale)
      else none)

abbrev pub or_invalid : Option CreateDesignRequest → Result CreateDesignRequest
or_invalid none = throw invalid_reviewed_configuration
or_invalid (some r) = ok r

unfoldable pub map_configuration_to_create_design :
    ConfigurationState → Option Text → Result CreateDesignRequest
unfolding create_request
map_configuration_to_create_design c legacy = or_invalid (create_request c legacy)

abbrev pub text_or_null_value : Option Text → Value
text_or_null_value none = null
text_or_null_value (some s) = str s

abbrev pub number_or_null_value : Option Num → Value
number_or_null_value none = null
number_or_null_value (some n) = num n

-- The fields of the request's JSON. Its numbers are finite.
unfoldable pub request_fields : CreateDesignRequest → Fields
request_fields r = field "shape" (str (shape_id r.shape)) (
    field "width" (num r.width) (
      field "height" (num r.height) (
        field "thickness" (num r.thickness) (
          field "unit" (str (unit_id r.unit)) (
            field "patternId" (text_or_null_value r.pattern_id) (
              field "solidColor" (text_or_null_value r.solid_color) (
                field "patternScale" (num r.pattern_scale) (
                  field "backWidth" (number_or_null_value r.back_width) (
                    field "materialId" (str (material_id r.material)) (
                      field "fitPreference" (str (fit_id r.fit)) (
                        field "closureType" (str (closure_id r.closure))
                          (field "seamStyle" (str (seam_id r.seam)) end))))))))))))

abbrev pub texts_match : Option Text → Option Text → Bool
texts_match none none = true
texts_match (some s) (some t) = text_eq s t
texts_match _ _ = false

-- `===` on every field of the request.
unfoldable pub designs_match : CreateDesignRequest → CreateDesignRequest → Bool
unfolding text_eq num_eq measurement_eq
designs_match saved request =
    text_eq (shape_id saved.shape) (shape_id request.shape)
    && num_eq saved.width request.width
    && num_eq saved.height request.height
    && measurement_eq saved.back_width request.back_width
    && num_eq saved.thickness request.thickness
    && text_eq (unit_id saved.unit) (unit_id request.unit)
    && texts_match saved.pattern_id request.pattern_id
    && texts_match saved.solid_color request.solid_color
    && num_eq saved.pattern_scale request.pattern_scale
    && text_eq (material_id saved.material) (material_id request.material)
    && text_eq (fit_id saved.fit) (fit_id request.fit)
    && text_eq (closure_id saved.closure) (closure_id request.closure)
    && text_eq (seam_id saved.seam) (seam_id request.seam)

abbrev pub saved_matches : Option DesignResponse → CreateDesignRequest → Bool
saved_matches none request = false
saved_matches (some saved) request = designs_match saved.design request

unfoldable pub response_matches_request : Value → CreateDesignRequest → Bool
unfolding read_design_response designs_match
response_matches_request value request = saved_matches (read_design_response value) request
