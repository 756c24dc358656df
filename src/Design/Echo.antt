-- ===== src/Design/Echo.antt =====
-- A design that is sent and comes back as it was sent is read as the same design.
use sewn_covers.Prelude.{true, false, Option, none, some, ◌≡◌, refl, arith}
use sewn_covers.Number.{Num, num_eq}
use sewn_covers.Number.Laws.{num_eq_refl}
use sewn_covers.Text.{Text, text_eq, text_eq_refl}
use sewn_covers.Text.Patterns.{is_public_id, is_pattern_id, is_hex_color}
use sewn_covers.Value.{Value, str, num, obj, field, lookup, has_field}
use sewn_covers.Configuration.{
  CushionShape, box, rectangle, round, square, tapered, MeasurementUnit, cm, inch, MaterialId,
  cotton_canvas, linen_blend, polyester_weave, FitPreference, close, relaxed, standard, ClosureType,
  envelope, slip_on, zipper, SeamStyle, piped, plain, shape_id, unit_id, material_id, fit_id,
  closure_id, seam_id, cushion_shapes, measurement_units, material_ids, fit_preferences,
  closure_types, seam_styles,
}
use sewn_covers.Configuration.Measurements.{measurement_eq}
use sewn_covers.Design.Contract.{
  CreateDesignRequest, is_measurement, is_scale, read_choice, read_measurement, read_back_width,
  read_scale, read_source, read_public_id, read_cover, read_design_fields, read_design_response,
  count_fields,
}
use sewn_covers.Design.Request.{
  is_single_source, request_fields, text_or_null_value, number_or_null_value, designs_match,
  texts_match,
}

abbrev pub IsMeasurementOrNone : Option Num → Type 0
IsMeasurementOrNone none = Unit {0}
IsMeasurementOrNone (some n) = is_measurement n ≡ true

-- A request that the reader of saved designs accepts.
pub record IsRequest (r : CreateDesignRequest) : Type 0 where
  pub width : is_measurement r.width ≡ true
  pub height : is_measurement r.height ≡ true
  pub thickness : is_measurement r.thickness ≡ true
  pub back_width : IsMeasurementOrNone r.back_width
  pub source : is_single_source r.pattern_id r.solid_color ≡ true
  pub scale : is_scale r.pattern_scale ≡ true

-- The choices.
choice-shape : (s : CushionShape) → read_choice shape_id cushion_shapes (str (shape_id s)) ≡ some s
unfolding read_choice text_eq
choice-shape box = refl
choice-shape rectangle = refl
choice-shape round = refl
choice-shape square = refl
choice-shape tapered = refl

choice-unit :
    (u : MeasurementUnit) → read_choice unit_id measurement_units (str (unit_id u)) ≡ some u
unfolding read_choice text_eq
choice-unit cm = refl
choice-unit inch = refl

choice-material :
    (x : MaterialId) → read_choice material_id material_ids (str (material_id x)) ≡ some x
unfolding read_choice text_eq
choice-material cotton_canvas = refl
choice-material linen_blend = refl
choice-material polyester_weave = refl

choice-fit : (x : FitPreference) → read_choice fit_id fit_preferences (str (fit_id x)) ≡ some x
unfolding read_choice text_eq
choice-fit close = refl
choice-fit relaxed = refl
choice-fit standard = refl

choice-closure :
    (x : ClosureType) → read_choice closure_id closure_types (str (closure_id x)) ≡ some x
unfolding read_choice text_eq
choice-closure envelope = refl
choice-closure slip_on = refl
choice-closure zipper = refl

choice-seam : (x : SeamStyle) → read_choice seam_id seam_styles (str (seam_id x)) ≡ some x
unfolding read_choice text_eq
choice-seam piped = refl
choice-seam plain = refl

-- The numbers.
measurement-num : (n : Num) → is_measurement n ≡ true → read_measurement (num n) ≡ some n
unfolding read_measurement
measurement-num n h = rw h

back_width-value :
    (o : Option Num) → IsMeasurementOrNone o → read_back_width (number_or_null_value o) ≡ some o
unfolding read_back_width
back_width-value none h = refl
back_width-value (some n) h = rw h

scale-num : (n : Num) → is_scale n ≡ true → read_scale (num n) ≡ some n
unfolding read_scale
scale-num n h = rw h

source-value :
    (pattern color : Option Text)
    → is_single_source pattern color ≡ true
    → read_source false (text_or_null_value pattern) (text_or_null_value color)
      ≡ some (pattern, color)
unfolding read_source
source-value none none h = cc
source-value none (some s) h = let fits : is_hex_color s ≡ true = ground arith in rw fits
source-value (some s) none h = let fits : is_pattern_id s ≡ true = ground arith in rw fits
source-value (some s) (some t) h = cc

abbrev pub echo : CreateDesignRequest → Text → Value
echo r id = obj (field "publicId" (str id) (request_fields r))

-- The saved record with the fields of the request, and a public id, is read as the request.
pub read-echo :
    (r : CreateDesignRequest) (id : Text)
    → IsRequest r
    → is_public_id id ≡ true
    → read_design_response (echo r id) ≡ some (record { design = r; public_id = id })
unfolding read_design_response read_design_fields request_fields lookup has_field count_fields
    read_cover read_public_id
read-echo r id q h = rw (
  choice-shape r.shape,
  measurement-num r.width q.width,
  measurement-num r.height q.height,
  measurement-num r.thickness q.thickness,
  choice-unit r.unit,
  source-value r.pattern_id r.solid_color q.source,
  scale-num r.pattern_scale q.scale,
  h,
  back_width-value r.back_width q.back_width,
  choice-material r.material,
  choice-fit r.fit,
  choice-closure r.closure,
  choice-seam r.seam,
)

-- It matches itself.
back_width_refl : (o : Option Num) → IsMeasurementOrNone o → measurement_eq o o ≡ true
unfolding measurement_eq is_measurement
back_width_refl none h = refl
back_width_refl (some n) h = num_eq_refl n (ground arith)

texts_match_refl : (o : Option Text) → texts_match o o ≡ true
texts_match_refl none = refl
texts_match_refl (some s) = text_eq_refl s

measurement_refl : (n : Num) → is_measurement n ≡ true → num_eq n n ≡ true
unfolding is_measurement
measurement_refl n h = num_eq_refl n (ground arith)

scale_refl : (n : Num) → is_scale n ≡ true → num_eq n n ≡ true
unfolding is_scale
scale_refl n h = num_eq_refl n (ground arith)

pub designs_match_refl : (r : CreateDesignRequest) → IsRequest r → designs_match r r ≡ true
unfolding designs_match
designs_match_refl r q = rw (
  text_eq_refl (shape_id r.shape),
  measurement_refl r.width q.width,
  measurement_refl r.height q.height,
  back_width_refl r.back_width q.back_width,
  measurement_refl r.thickness q.thickness,
  text_eq_refl (unit_id r.unit),
  texts_match_refl r.pattern_id,
  texts_match_refl r.solid_color,
  scale_refl r.pattern_scale q.scale,
  text_eq_refl (material_id r.material),
  text_eq_refl (fit_id r.fit),
  text_eq_refl (closure_id r.closure),
  text_eq_refl (seam_id r.seam),
)
