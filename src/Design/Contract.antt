-- ===== src/Design/Contract.antt =====
-- frontend/services/design-contract.ts.
use sewn_covers.Prelude.{
  ℕ, suc, Bool, true, false, not, ◌&&◌, ◌||◌, ◌==◌, if◌then◌else◌, String, Option, none, some, List,
  [], ◌∷◌, find,
}
use sewn_covers.Number.{Num, zero_num, is_finite, num_lt, decimal, has_at_most_decimal_places}
use sewn_covers.Text.{Text}
use sewn_covers.Text.Patterns.{is_pattern_id, is_public_id, is_hex_color}
use sewn_covers.Value.{Value, undef, null, str, num, Fields, lookup, has_field, as_record, ◌>>=◌}
use sewn_covers.Configuration.{
  CushionShape, MeasurementUnit, MaterialId, FitPreference, ClosureType, SeamStyle, shape_id,
  unit_id, material_id, fit_id, closure_id, seam_id, cushion_shapes, measurement_units,
  material_ids, fit_preferences, closure_types, seam_styles,
}
use sewn_covers.Configuration.Cover.{
  default_material_id, default_fit_preference, default_closure_type, default_seam_style,
}
use sewn_covers.Configuration.Draft.{is_text}

pub record CreateDesignRequest : Type 0 where
  pub shape : CushionShape
  pub width : Num
  pub height : Num
  pub thickness : Num
  pub unit : MeasurementUnit
  pub pattern_id : Option Text
  pub solid_color : Option Text
  pub pattern_scale : Num
  pub back_width : Option Num
  pub material : MaterialId
  pub fit : FitPreference
  pub closure : ClosureType
  pub seam : SeamStyle

pub record DesignResponse : Type 0 where
  pub design : CreateDesignRequest
  pub public_id : Text

abbrev pub cover_fields : List String
cover_fields = "backWidth" ∷ "materialId" ∷ "fitPreference" ∷ "closureType" ∷ "seamStyle" ∷ []

-- `COVER_FIELDS.filter((field) => Object.hasOwn(value, field)).length`
unfoldable pub count_fields : List String → Fields → ℕ
unfolding has_field
count_fields [] fs = 0
count_fields (key ∷ keys) fs =
    if has_field key fs then suc (count_fields keys fs) else count_fields keys fs

-- One of the values of a choice.
module _ {A : Type 0} (id : A → Text) where
  unfoldable pub read_choice : List A → Value → Option A
  unfolding is_text
  read_choice values value = find (λ a. is_text value (id a)) values

-- `isMeasurement`, on a number.
unfoldable pub is_measurement : Num → Bool
is_measurement n = is_finite n && num_lt zero_num n && has_at_most_decimal_places n 2

unfoldable pub read_measurement : Value → Option Num
read_measurement (num n) = if is_measurement n then some n else none
read_measurement _ = none

unfoldable pub read_back_width : Value → Option (Option Num)
unfolding read_measurement
read_back_width null = some none
read_back_width (num n) = if is_measurement n then some (some n) else none
read_back_width _ = none

-- The tests on `patternScale`.
unfoldable pub is_scale : Num → Bool
is_scale n =
    is_finite n
    && (not (num_lt n (decimal 5 1)) && not (num_lt (decimal 2 0) n))
    && has_at_most_decimal_places n 1

unfoldable pub read_scale : Value → Option Num
read_scale (num n) = if is_scale n then some n else none
read_scale _ = none

-- `(value ?? null) === null`
abbrev pub is_nullish : Value → Bool
is_nullish undef = true
is_nullish null = true
is_nullish _ = false

abbrev pub matching_text : (Text → Bool) → Value → Option Text
matching_text pattern (str s) = if pattern s then some s else none
matching_text pattern _ = none

abbrev pub pattern_source : Option Text → Option (Option Text × Option Text)
pattern_source none = none
pattern_source (some id) = some (some id, none)

abbrev pub color_source : Option Text → Option (Option Text × Option Text)
color_source none = none
color_source (some color) = some (none, some color)

-- Exactly one of `patternId` and `solidColor`; a record from before the cover choices has no colour.
unfoldable pub read_source : Bool → Value → Value → Option (Option Text × Option Text)
read_source legacy pattern color =
    if is_nullish pattern
    then (if is_nullish color || legacy
        then none
        else color_source (matching_text is_hex_color color))
    else if is_nullish color
    then pattern_source (matching_text is_pattern_id pattern)
    else none

unfoldable pub read_public_id : Value → Option Text
read_public_id value = matching_text is_public_id value

-- The cover choices, of which a record from before them has none.
pub record CoverChoices : Type 0 where
  pub back_width : Option Num
  pub material : MaterialId
  pub fit : FitPreference
  pub closure : ClosureType
  pub seam : SeamStyle

unfoldable pub read_cover : Fields → Option CoverChoices
unfolding lookup
read_cover fs = do
  back_width ← read_back_width (lookup "backWidth" fs)
  material ← read_choice material_id material_ids (lookup "materialId" fs)
  fit ← read_choice fit_id fit_preferences (lookup "fitPreference" fs)
  closure ← read_choice closure_id closure_types (lookup "closureType" fs)
  seam ← read_choice seam_id seam_styles (lookup "seamStyle" fs)
  some (record {
    back_width = back_width;
    material = material;
    fit = fit;
    closure = closure;
    seam = seam;
  })

abbrev pub legacy_cover : CoverChoices
legacy_cover = record {
  back_width = none;
  material = default_material_id;
  fit = default_fit_preference;
  closure = default_closure_type;
  seam = default_seam_style;
}

abbrev pub has_all_or_none : ℕ → Bool
has_all_or_none n = n == 0 || n == 5

unfoldable pub read_design_fields : Fields → Option DesignResponse
unfolding lookup
read_design_fields fs = do
  let legacy = count_fields cover_fields fs == 0
  shape ← read_choice shape_id cushion_shapes (lookup "shape" fs)
  width ← read_measurement (lookup "width" fs)
  height ← read_measurement (lookup "height" fs)
  thickness ← read_measurement (lookup "thickness" fs)
  unit ← read_choice unit_id measurement_units (lookup "unit" fs)
  source ← read_source legacy (lookup "patternId" fs) (lookup "solidColor" fs)
  scale ← read_scale (lookup "patternScale" fs)
  public_id ← read_public_id (lookup "publicId" fs)
  cover ← (if legacy then some legacy_cover else read_cover fs)
  some (record {
    design = record {
      shape = shape;
      width = width;
      height = height;
      thickness = thickness;
      unit = unit;
      pattern_id = source.0;
      solid_color = source.1;
      pattern_scale = scale;
      back_width = cover.back_width;
      material = cover.material;
      fit = cover.fit;
      closure = cover.closure;
      seam = cover.seam;
    };
    public_id = public_id;
  })

unfoldable pub read_design_response : Value → Option DesignResponse
unfolding as_record count_fields
read_design_response value = do
  fs ← as_record value
  if has_all_or_none (count_fields cover_fields fs) then read_design_fields fs else none
