-- ===== src/Design/Accepted.antt =====
-- A configuration that is accepted for saving gives a request that the reader of saved designs reads.
use sewn_covers.Prelude.{
  ℕ, zero, suc, ◌+◌, ◌≤◌, ◌<◌, Bool, true, false, ◌&&◌, if◌then◌else◌, Option, none, some, ◌≡◌,
  refl, ap, ◌∙◌, arith, and-left, and_intro,
}
use sewn_covers.Prelude.Result.{ok}
use sewn_covers.Number.{Num, decimal, has_at_most_decimal_places, evaluation}
use sewn_covers.Text.{Text}
use sewn_covers.Text.Patterns.{is_public_id}
use sewn_covers.Value.{Value, str, obj, field, >>=-eq-some}
use sewn_covers.Configuration.{
  CushionShape, MeasurementUnit, ConfigurationState, get_solid_color, is_tapered,
}
use sewn_covers.Configuration.Measurements.{
  has_valid_measurements_for_shape, is_finite_positive_measurement, MeasurementField,
  is_measurement_within_range,
}
use sewn_covers.Configuration.Measurements.Validity.{measurements-IsValid, within_range_positive}
use sewn_covers.Configuration.Scale.{normalize_pattern_scale}
use sewn_covers.Configuration.Scale.Steps.{normalize-is_step}
use sewn_covers.Design.Contract.{
  CreateDesignRequest, DesignResponse, is_measurement, is_scale, read_design_response,
}
use sewn_covers.Design.Request.{
  source_pattern_id, is_single_source, is_ready, has_cents, request_of, create_request,
  map_configuration_to_create_design, request_fields, designs_match, or_invalid, saved_matches,
  response_matches_request,
}
use sewn_covers.Design.Echo.{IsMeasurementOrNone, IsRequest, read-echo, designs_match_refl}

-- What the check of the configuration establishes.
is_step_scale : ℕ → Bool
is_step_scale k = is_scale (decimal k 1)

all_steps : ℕ → (ℕ → Bool) → Bool
all_steps zero p = true
all_steps (suc n) p = p (n + 5) && all_steps n p

all_steps_sound :
    (n : ℕ) (p : ℕ → Bool) (k : ℕ) → all_steps n p ≡ true → 5 ≤ k → k < n + 5 → p k ≡ true
unfolding all_steps
all_steps_sound zero p k h lo hi = absurd (omega arith)
all_steps_sound (suc n) p k h lo hi = ground (arith, all_steps_sound n p k)

scale_table : all_steps 16 is_step_scale ≡ true
unfolding all_steps is_step_scale is_scale has_at_most_decimal_places evaluation
scale_table = refl

normalized-is_scale : (v n : Num) → normalize_pattern_scale v ≡ some n → is_scale n ≡ true
unfolding is_step_scale
normalized-is_scale v n h =
    let (k, lo, hi, same) = normalize-is_step v n h in
    rw same (all_steps_sound 16 is_step_scale k scale_table lo (omega arith))

within-is_measurement :
    (n : Num) (side : MeasurementField) (unit : MeasurementUnit)
    → is_measurement_within_range (some n) side unit ≡ true
    → has_at_most_decimal_places n 2 ≡ true
    → is_measurement n ≡ true
unfolding is_measurement is_finite_positive_measurement
within-is_measurement n side unit h k =
    let positive = within_range_positive (some n) side unit h in and_intro _ _ positive k

back_width-IsMeasurementOrNone :
    (tapered : Bool) (b : Option Num) (unit : MeasurementUnit)
    → (tapered ≡ true → is_measurement_within_range b MeasurementField.back_width unit ≡ true)
    → has_cents b ≡ true
    → IsMeasurementOrNone (if tapered then b else none)
back_width-IsMeasurementOrNone false b unit h k = tt
back_width-IsMeasurementOrNone true none unit h k = tt
back_width-IsMeasurementOrNone true (some n) unit h k =
    within-is_measurement n MeasurementField.back_width unit (h refl) k

request_of-IsRequest :
    (c : ConfigurationState) (legacy : Option Text) (s : CushionShape) (w h t v : Num)
    → normalize_pattern_scale c.pattern_scale ≡ some v
    → (is_single_source (source_pattern_id c.pattern legacy) (get_solid_color c.pattern)
        && is_ready c s w h t v)
      ≡ true
    → IsRequest (request_of c legacy s w h t v)
unfolding is_ready request_of
request_of-IsRequest c legacy s w h t v n ready =
    let measured : has_valid_measurements_for_shape (some s) (some w) (some h) (some t) c.unit
          c.back_width
        ≡ true =
      ground arith in
    let valid = measurements-IsValid s (some w) (some h) (some t) c.unit c.back_width measured in
    record {
      width =
          within-is_measurement w MeasurementField.width c.unit valid.width_within (ground arith);
      height =
          within-is_measurement h MeasurementField.height c.unit valid.height_within (ground arith);
      thickness =
          within-is_measurement t MeasurementField.thickness c.unit valid.thickness_within
            (ground arith);
      back_width =
          back_width-IsMeasurementOrNone (is_tapered (some s)) c.back_width c.unit valid.back_within
            (ground arith);
      source = and-left _ _ ready;
      scale = normalized-is_scale c.pattern_scale v n;
    }

kept :
    {A : Type 0} (b : Bool) (x r : A) → (if b then some x else none) ≡ some r → (b ≡ true) × (x ≡ r)
kept true x r h = (refl, ground arith)
kept false x r h = cc

-- The parts of a configuration that is accepted, and the request that they make.
pub record IsCreated (c : ConfigurationState) (legacy : Option Text) (r : CreateDesignRequest)
    : Type 0 where
  pub shape : CushionShape
  pub width : Num
  pub height : Num
  pub thickness : Num
  pub scale : Num
  pub shape_eq : c.shape ≡ some shape
  pub width_eq : c.width ≡ some width
  pub height_eq : c.height ≡ some height
  pub thickness_eq : c.thickness ≡ some thickness
  pub scaled : normalize_pattern_scale c.pattern_scale ≡ some scale
  pub ready :
      (is_single_source (source_pattern_id c.pattern legacy) (get_solid_color c.pattern)
        && is_ready c shape width height thickness scale)
      ≡ true
  pub same : request_of c legacy shape width height thickness scale ≡ r

made-IsCreated :
    (c : ConfigurationState) (legacy : Option Text) (r : CreateDesignRequest)
    → create_request c legacy ≡ some r
    → IsCreated c legacy r
unfolding create_request
made-IsCreated c legacy r h =
    let (s, shape_eq, h1) = >>=-eq-some c.shape _ h in
    let (w, width_eq, h2) = >>=-eq-some c.width _ h1 in
    let (y, height_eq, h3) = >>=-eq-some c.height _ h2 in
    let (t, thickness_eq, h4) = >>=-eq-some c.thickness _ h3 in
    let (v, scaled, h5) = >>=-eq-some (normalize_pattern_scale c.pattern_scale) _ h4 in
    let (ready, same) = kept _ _ _ h5 in
    record {
      shape = s;
      width = w;
      height = y;
      thickness = t;
      scale = v;
      shape_eq = shape_eq;
      width_eq = width_eq;
      height_eq = height_eq;
      thickness_eq = thickness_eq;
      scaled = scaled;
      ready = ready;
      same = same;
    }

mapped-eq-ok :
    (o : Option CreateDesignRequest) (r : CreateDesignRequest) → or_invalid o ≡ ok r → o ≡ some r
mapped-eq-ok none r h = cc
mapped-eq-ok (some q) r h = ground arith

pub mapped-IsCreated :
    (c : ConfigurationState) (legacy : Option Text) (r : CreateDesignRequest)
    → map_configuration_to_create_design c legacy ≡ ok r
    → IsCreated c legacy r
unfolding map_configuration_to_create_design
mapped-IsCreated c legacy r h = made-IsCreated c legacy r (mapped-eq-ok _ r h)

pub mapped-IsRequest :
    (c : ConfigurationState) (legacy : Option Text) (r : CreateDesignRequest)
    → map_configuration_to_create_design c legacy ≡ ok r
    → IsRequest r
mapped-IsRequest c legacy r h =
    let p = mapped-IsCreated c legacy r h in
    rw (← p.same)
      (request_of-IsRequest c legacy p.shape p.width p.height p.thickness p.scale p.scaled p.ready)

response_matches-found :
    (value : Value) (r : CreateDesignRequest) (saved : DesignResponse)
    → read_design_response value ≡ some saved
    → designs_match saved.design r ≡ true
    → response_matches_request value r ≡ true
unfolding response_matches_request
response_matches-found value r saved found same = ap (λ o. saved_matches o r) found ∙ same

-- If a configuration is accepted for saving, then the record made of its request and a public id is
-- read back as exactly that request under that id, and the save controller's comparison accepts it.
pub read_design_response-map_configuration :
    (c : ConfigurationState) (legacy : Option Text) (r : CreateDesignRequest) (id : Text)
    → map_configuration_to_create_design c legacy ≡ ok r
    → is_public_id id ≡ true
    → (read_design_response (obj (field "publicId" (str id) (request_fields r)))
        ≡ some (record { design = r; public_id = id }))
      × (response_matches_request (obj (field "publicId" (str id) (request_fields r))) r ≡ true)
unfolding map_configuration_to_create_design
read_design_response-map_configuration c legacy r id h p =
    let accepted = mapped-IsRequest c legacy r h in
    let found = read-echo r id accepted p in
    (found, response_matches-found _ r _ found (designs_match_refl r accepted))
