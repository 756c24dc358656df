-- ===== src/SharedDesign/RoundTrip.antt =====
-- A design that is saved is restored from its link as the configuration that was saved.
use sewn_covers.Prelude.{
  true, if◌then◌else◌, Option, none, some, ◌≡◌, refl, sym, arith, and-left, and-right,
}
use sewn_covers.Prelude.Result.{ok}
use sewn_covers.Number.{Num, is_finite}
use sewn_covers.Number.Laws.{num_eq→eq, num_eq_refl}
use sewn_covers.Text.{Text, text_eq_refl}
use sewn_covers.Text.Patterns.{is_public_id}
use sewn_covers.Value.{str, obj, field}
use sewn_covers.Configuration.{
  CushionShape, box, rectangle, round, square, tapered, MeasurementUnit, ConfigurationState,
  PatternChoice, built_in, solid, custom, get_solid_color, is_tapered,
}
use sewn_covers.Configuration.Measurements.{has_valid_measurements_for_shape, measurement_eq}
use sewn_covers.Configuration.Scale.{is_pattern_scale_within_range, normalize_pattern_scale}
use sewn_covers.Configuration.Scale.Steps.{
  normalize_idempotent, normalize-positive, normalize-in_range,
}
use sewn_covers.Configuration.Cover.{has_supported_cover_options}
use sewn_covers.Design.{
  CreateDesignRequest, source_pattern_id, is_single_source, is_ready, request_of,
  map_configuration_to_create_design, request_fields,
}
use sewn_covers.Design.Accepted.{
  IsCreated, mapped-IsCreated, read_design_response-map_configuration,
}
use sewn_covers.SharedDesign.Restore.{
  pattern_of, restored_configuration, is_configurable, configuration_from_response,
}

-- A configuration as a link carries it: a back width belongs to a tapered cushion only.
abbrev pub shared : ConfigurationState → ConfigurationState
shared c = record c { back_width = if is_tapered c.shape then c.back_width else none }

-- The measurements stay valid.
shared-measurements :
    (s : CushionShape) (w h t b : Option Num) (unit : MeasurementUnit)
    → has_valid_measurements_for_shape (some s) w h t unit b ≡ true
    → has_valid_measurements_for_shape (some s) w h t unit (if is_tapered (some s) then b else none)
      ≡ true
unfolding has_valid_measurements_for_shape
shared-measurements tapered w h t b unit valid = valid
shared-measurements box w h t b unit valid = ground arith
shared-measurements rectangle w h t b unit valid = ground arith
shared-measurements round w h t b unit valid = ground arith
shared-measurements square w h t b unit valid = ground arith

-- An accepted configuration with no older pattern id has a pattern, which the request carries.
pattern_of-request :
    (o : Option PatternChoice)
    → is_single_source (source_pattern_id o none) (get_solid_color o) ≡ true
    → (p : PatternChoice) × (o ≡ some p)
      × ((r : CreateDesignRequest)
          → r.pattern_id ≡ source_pattern_id o none
          → r.solid_color ≡ get_solid_color o
          → pattern_of r ≡ some p)
unfolding source_pattern_id get_solid_color
pattern_of-request none h = cc
pattern_of-request (some (custom x)) h = cc
pattern_of-request (some (built_in id)) h = (built_in id, refl, λ r e d. rw (d, e) refl)
pattern_of-request (some (solid color)) h = (solid color, refl, λ r e d. rw d refl)

module _ (c : ConfigurationState) (r : CreateDesignRequest) (id : Text)
    (a : IsCreated c none r) where
  scale-eq : a.scale ≡ c.pattern_scale
  unfolding is_ready
  scale-eq =
      num_eq→eq a.scale c.pattern_scale (and-right _ _ (and-right _ _ a.ready))
        (normalize-positive c.pattern_scale a.scale a.scaled)

  made : CreateDesignRequest
  made = request_of c none a.shape a.width a.height a.thickness a.scale

  scale-normal : measurement_eq (normalize_pattern_scale a.scale) (some a.scale) ≡ true
  unfolding measurement_eq normalize_pattern_scale is_pattern_scale_within_range
  scale-normal =
      let in_range = normalize-in_range c.pattern_scale a.scale a.scaled in
      let finite : is_finite a.scale ≡ true = ground arith in
      rw (normalize_idempotent c.pattern_scale a.scale a.scaled) (num_eq_refl a.scale finite)

  made-IsConfigurable : is_configurable (record { design = made; public_id = id }) id ≡ true
  unfolding made is_configurable request_of is_ready has_supported_cover_options
  made-IsConfigurable =
      let ready : is_ready c a.shape a.width a.height a.thickness a.scale ≡ true =
        and-right (is_single_source (source_pattern_id c.pattern none) (get_solid_color c.pattern))
          (is_ready c a.shape a.width a.height a.thickness a.scale) a.ready in
      let valid : has_valid_measurements_for_shape (some a.shape) (some a.width) (some a.height)
            (some a.thickness) c.unit c.back_width
          ≡ true =
        ground arith in
      let measured =
        shared-measurements a.shape (some a.width) (some a.height) (some a.thickness) c.back_width
          c.unit valid in
      let covered : has_supported_cover_options (restored_configuration made none) ≡ true =
        ground arith in
      let same = text_eq_refl id in let normal = scale-normal in rw (same, measured, normal) covered

  restored-made :
      (p : PatternChoice) → c.pattern ≡ some p → restored_configuration made (some p) ≡ shared c
  unfolding made request_of
  restored-made p pattern_eq = λ i. record {
    shape = sym a.shape_eq i;
    width = sym a.width_eq i;
    height = sym a.height_eq i;
    back_width = if is_tapered (sym a.shape_eq i) then c.back_width else none;
    thickness = sym a.thickness_eq i;
    unit = c.unit;
    pattern = sym pattern_eq i;
    pattern_scale = scale-eq i;
    material = c.material;
    fit = c.fit;
    closure = c.closure;
    seam = c.seam;
  }

  configuration_from_response-made :
      is_public_id id ≡ true
      → map_configuration_to_create_design c none ≡ ok r
      → configuration_from_response (obj (field "publicId" (str id) (request_fields r))) id
        ≡ some (shared c)
  unfolding configuration_from_response request_of made
  configuration_from_response-made public mapped =
      let (read, _) = read_design_response-map_configuration c none r id mapped public in
      let (p, pattern_eq, found) = pattern_of-request c.pattern (and-left _ _ a.ready) in
      let configurable = made-IsConfigurable in
      let source = found made refl refl in
      let restored = restored-made p pattern_eq in
      let same : made ≡ r = a.same in rw (read, ← same, configurable, source, restored) refl

-- If a configuration with no older pattern id is accepted for saving, then the record made of its
-- request and a public id, opened under that id, restores the configuration that was saved, less the
-- back width of a cushion that is not tapered.
pub configuration_from_response-map_configuration :
    (c : ConfigurationState) (r : CreateDesignRequest) (id : Text)
    → map_configuration_to_create_design c none ≡ ok r
    → is_public_id id ≡ true
    → configuration_from_response (obj (field "publicId" (str id) (request_fields r))) id
      ≡ some (shared c)
unfolding map_configuration_to_create_design configuration_from_response
configuration_from_response-map_configuration c r id h p =
    configuration_from_response-made c r id (mapped-IsCreated c none r h) p h
