-- ===== src/SharedDesign/Restore.antt =====
-- `configurationFromResponse`, `readSharedDesignId` and the tests on errors.
use sewn_covers.Prelude.{
  Bool, true, false, ◌&&◌, ◌==◌, if◌then◌else◌, Option, none, some, List, [], ◌∷◌, any, drop,
}
use sewn_covers.Text.{Text, codes, text_eq, starts_with}
use sewn_covers.Text.Patterns.{is_public_id}
use sewn_covers.Value.{Value, ◌>>=◌}
use sewn_covers.Configuration.{ConfigurationState, PatternChoice, built_in, solid}
use sewn_covers.Configuration.Measurements.{has_valid_measurements_for_shape, measurement_eq}
use sewn_covers.Configuration.Scale.{normalize_pattern_scale}
use sewn_covers.Configuration.Cover.{has_supported_cover_options}
use sewn_covers.ApiClient.{ApiClientError, ApiErrorCategory, malformed_response}
use sewn_covers.Design.{CreateDesignRequest, DesignResponse, read_design_response}

-- The colour, or the pattern id.
abbrev pub pattern_of : CreateDesignRequest → Option PatternChoice
pattern_of d = elim d.solid_color [
  | some color ↦ some (solid color)
  | none ↦ elim d.pattern_id [ some id ↦ some (built_in id) | none ↦ none ]
]

abbrev pub restored_configuration : CreateDesignRequest → Option PatternChoice → ConfigurationState
restored_configuration d pattern = record {
  shape = some d.shape;
  width = some d.width;
  height = some d.height;
  back_width = d.back_width;
  thickness = some d.thickness;
  unit = d.unit;
  pattern = pattern;
  pattern_scale = d.pattern_scale;
  material = d.material;
  fit = d.fit;
  closure = d.closure;
  seam = d.seam;
}

-- The tests on the design that was read.
unfoldable pub is_configurable : DesignResponse → Text → Bool
unfolding text_eq has_valid_measurements_for_shape measurement_eq has_supported_cover_options
is_configurable saved requested =
    let d = saved.design in
    text_eq saved.public_id requested
    && has_valid_measurements_for_shape (some d.shape) (some d.width) (some d.height)
        (some d.thickness) d.unit d.back_width
    && measurement_eq (normalize_pattern_scale d.pattern_scale) (some d.pattern_scale)
    && has_supported_cover_options (restored_configuration d none)

unfoldable pub configuration_from_response : Value → Text → Option ConfigurationState
unfolding read_design_response is_configurable
configuration_from_response response requested = do
  saved ← read_design_response response
  pattern ← (if is_configurable saved requested then pattern_of saved.design else none)
  some (restored_configuration saved.design (some pattern))

unfoldable pub is_unknown_design_error : ApiClientError → Bool
unfolding text_eq
is_unknown_design_error e = elim e.status [
  | none ↦ false
  | some status ↦ status == 404 && any (λ d. text_eq d.code (codes "design_not_found")) e.errors
]

abbrev is_malformed : ApiErrorCategory → Bool
is_malformed malformed_response = true
is_malformed _ = false

unfoldable pub is_malformed_response_error : ApiClientError → Bool
is_malformed_response_error e = is_malformed e.category

pub data SharedDesignId : Type 0 where
  absent malformed : SharedDesignId
  valid : Text → SharedDesignId

abbrev id_of_values : Option (List Text) → SharedDesignId
id_of_values none = malformed
id_of_values (some []) = absent
id_of_values (some (id ∷ [])) = if is_public_id id then valid id else malformed
id_of_values (some (_ ∷ _ ∷ _)) = malformed

-- The values of `design` in a query come from `URLSearchParams`, which is the browser's: `none` where
-- it throws.
module _ (get_all : Text → Option (List Text)) where
  unfoldable pub read_shared_design_id : Text → SharedDesignId
  unfolding starts_with is_public_id
  read_shared_design_id search =
      id_of_values (get_all (if starts_with (codes "?") search then drop 1 search else search))
