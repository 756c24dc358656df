-- ===== src/Configuration/Draft/RoundTrip.antt =====
-- A configuration that was stored reads back as it was.
use sewn_covers.Prelude.{
  ◌≤◌, true, false, length, take-of_le, if◌then◌else◌, Option, none, some, ◌≡◌, refl, arith,
  and-left, Bool-cases, inl, inr, sym,
}
use sewn_covers.Number.{Num, is_finite}
use sewn_covers.Number.Laws.{num_eq_refl}
use sewn_covers.Text.{Text, codes, trim, is_empty}
use sewn_covers.Value.{str}
use sewn_covers.Configuration.Types.{
  CushionShape, box, rectangle, round, square, tapered, MeasurementUnit, cm, inch, MaterialId,
  cotton_canvas, linen_blend, polyester_weave, FitPreference, close, relaxed, standard, ClosureType,
  envelope, slip_on, zipper, SeamStyle, piped, plain, PatternChoice, built_in, custom, solid,
  ConfigurationState, has_equal_face, unit_id, material_id, fit_id, closure_id, seam_id,
}
use sewn_covers.Configuration.Measurements.{is_finite_positive_measurement}
use sewn_covers.Configuration.Scale.{normalize_pattern_scale, is_pattern_scale_within_range}
use sewn_covers.Configuration.Scale.Steps.{normalize-in_range}
use sewn_covers.Configuration.Cover.{
  material_options, fit_options, closure_options, seam_options, default_material_id,
  default_fit_preference, default_closure_type, default_seam_style,
}
use sewn_covers.Configuration.Draft.Defs.{
  draft_measurement, draft_option, is_text, draft_label, draft_pattern, draft_scale, draft_shape,
  sanitize_draft_configuration,
}
use sewn_covers.Configuration.Draft.Storing.{
  measurement_value, number_value, pattern_value, shape_value, storable_configuration,
}
use sewn_covers.Configuration.Draft.Sound.{IsMeasured, IsDraftPattern, IsDraft}

-- A custom pattern's label that has no white space at its ends, is not empty, and is at most 120
-- units long.
pub record IsPlain (label : Text) : Type 0 where
  pub trimmed : trim label ≡ label
  pub given : is_empty label ≡ false
  pub short : length label ≤ 120

abbrev pub HasPlainLabel : Option PatternChoice → Type 0
HasPlainLabel (some (custom c)) = IsPlain c.label
HasPlainLabel _ = Unit {0}

draft-plain : (label : Text) → IsPlain label → draft_label (str label) ≡ label
unfolding draft_label
draft-plain label p = rw (p.trimmed, take-of_le 120 label p.short, p.given) refl

draft-shape_value : (s : Option CushionShape) → draft_shape (shape_value s) ≡ s
unfolding draft_shape
draft-shape_value none = refl
draft-shape_value (some box) = refl
draft-shape_value (some rectangle) = refl
draft-shape_value (some round) = refl
draft-shape_value (some square) = refl
draft-shape_value (some tapered) = refl

draft-material :
    (m : MaterialId)
    → draft_option material_id material_options (str (material_id m)) default_material_id ≡ m
unfolding draft_option
draft-material cotton_canvas = refl
draft-material linen_blend = refl
draft-material polyester_weave = refl

draft-fit :
    (f : FitPreference)
    → draft_option fit_id fit_options (str (fit_id f)) default_fit_preference ≡ f
unfolding draft_option
draft-fit close = refl
draft-fit relaxed = refl
draft-fit standard = refl

draft-closure :
    (c : ClosureType)
    → draft_option closure_id closure_options (str (closure_id c)) default_closure_type ≡ c
unfolding draft_option
draft-closure envelope = refl
draft-closure slip_on = refl
draft-closure zipper = refl

draft-seam :
    (s : SeamStyle) → draft_option seam_id seam_options (str (seam_id s)) default_seam_style ≡ s
unfolding draft_option
draft-seam piped = refl
draft-seam plain = refl

draft-unit :
    (u : MeasurementUnit) → (if is_text (str (unit_id u)) (codes "in") then inch else cm) ≡ u
unfolding is_text
draft-unit cm = refl
draft-unit inch = refl

measurement_is_finite :
    (n : Num) → is_finite_positive_measurement (some n) ≡ true → is_finite n ≡ true
unfolding is_finite_positive_measurement
measurement_is_finite n h = and-left _ _ h

draft-measurement_value :
    (m : Option Num) → IsMeasured m → draft_measurement (measurement_value m) ≡ m
unfolding draft_measurement
draft-measurement_value none h = refl
draft-measurement_value (some n) (positive, kept) =
    rw (measurement_is_finite n positive) (rw (positive, kept))

scale_is_finite : (n : Num) → is_pattern_scale_within_range n ≡ true → is_finite n ≡ true
unfolding is_pattern_scale_within_range
scale_is_finite n h = ground arith

draft-number_value :
    (n : Num) → normalize_pattern_scale n ≡ some n → draft_scale (number_value n) ≡ n
unfolding draft_scale
draft-number_value n h =
    let finite = scale_is_finite n (normalize-in_range n n h) in
    rw finite (rw (h, num_eq_refl n finite))

draft-pattern_value :
    (p : Option PatternChoice)
    → IsDraftPattern p
    → HasPlainLabel p
    → draft_pattern (pattern_value p) ≡ p
unfolding draft_pattern
draft-pattern_value none h l = refl
draft-pattern_value (some (built_in id)) h l = rw h
draft-pattern_value (some (solid color)) h l = rw h
draft-pattern_value (some (custom c)) (a, d, p, u, r) l =
    rw (a, d, p, draft-plain c.label l)
      λ i. some (
        custom (record {
          asset_id = c.asset_id;
          derivative_id = c.derivative_id;
          processing_version = c.processing_version;
          label = c.label;
          preview_url = sym u i;
          unavailable_reason = sym r i;
        }))

-- The height is read from the width where the face is as high as it is wide.
draft-height :
    (s : ConfigurationState)
    → IsDraft s
    → (if has_equal_face (draft_shape (shape_value s.shape))
        then draft_measurement (measurement_value s.width)
        else draft_measurement (measurement_value s.height))
      ≡ s.height
draft-height s d =
    rw
      (
        draft-shape_value s.shape,
        draft-measurement_value s.width d.width,
        draft-measurement_value s.height d.height,
      )
      (elim (Bool-cases (has_equal_face s.shape)) [
        | inl equal ↦ rw equal (d.equal_face equal)
        | inr free ↦ rw free
      ])

pub sanitize-storable :
    (s : ConfigurationState)
    → IsDraft s
    → HasPlainLabel s.pattern
    → sanitize_draft_configuration (storable_configuration s) ≡ s
unfolding sanitize_draft_configuration storable_configuration
sanitize-storable s d l = λ i. record {
  shape = draft-shape_value s.shape i;
  width = draft-measurement_value s.width d.width i;
  height = draft-height s d i;
  back_width = draft-measurement_value s.back_width d.back_width i;
  thickness = draft-measurement_value s.thickness d.thickness i;
  unit = draft-unit s.unit i;
  pattern = draft-pattern_value s.pattern d.pattern l i;
  pattern_scale = draft-number_value s.pattern_scale d.scale i;
  material = draft-material s.material i;
  fit = draft-fit s.fit i;
  closure = draft-closure s.closure i;
  seam = draft-seam s.seam i;
}
