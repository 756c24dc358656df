-- ===== src/Review/Readiness.antt =====
-- `deriveReviewReadiness`.
use sewn_covers.Prelude.{
  ℕ, ◌+◌, Bool, true, false, not, ◌&&◌, ◌||◌, leb, if◌then◌else◌, Option, none, some, List, [], ◌∷◌,
  ◌++◌, map, filter, any, find,
}
use sewn_covers.Number.{Num}
use sewn_covers.Text.{Text, codes, text_eq}
use sewn_covers.Configuration.{
  CushionShape, box, rectangle, round, square, tapered, MeasurementUnit, cm, inch,
  UnavailableReason, deleted, unavailable, CustomPattern, PatternChoice, built_in, custom, solid,
  ConfigurationState, unit_id, has_equal_face,
}
use sewn_covers.Configuration.Measurements.{
  MeasurementField, width, height, back_width, thickness, is_measurement_within_range,
  measurement_eq, has_valid_measurements_for_shape,
}
use sewn_covers.Configuration.Scale.{is_pattern_scale_within_range}
use sewn_covers.Patterns.{
  PatternCatalogueResult, empty, error, loading, ready, PatternDefinition, find_pattern,
  get_pattern_category_label, get_pattern_color_labels,
}
use sewn_covers.Review.Shapes.{
  ShapeMeasurementDefinition, CushionShapeDefinition, get_cushion_shape_definition,
  get_measurement_label, field_id,
}
use sewn_covers.Review.Format.{
  format_measurement, format_pattern_scale, material_name, fit_name, closure_name, seam_name,
}
use sewn_covers.Review.Summary.{
  ReviewSummaryField, ReviewSummary, ReviewPatternSummary, prototype_notice_text, unit_label,
  measurement_of, joined, shown, build_summary, serialize_review_summary,
}
pub mod Requirements
pub mod Cases

pub data ReviewSection : Type 0 where
  cover_details measurements pattern pattern_scale shape : ReviewSection

pub record ReviewIssue : Type 0 where
  pub id : Text
  pub message : Text
  pub section : ReviewSection

pub data ReviewReadiness : Type 0 where
  incomplete : List ReviewIssue → ReviewReadiness
  reviewed : ReviewSummary → ReviewReadiness

abbrev issue : Text → Text → ReviewSection → ReviewIssue
issue id message section = record { id = id; message = message; section = section }

-- `toLowerCase` of the labels, which are ASCII.
abbrev lower : Text → Text
lower [] = []
lower (c ∷ s) = (if leb b'A' c && leb c b'Z' then c + 32 else c) ∷ lower s

-- The labels but the last, separated by commas, and the last.
abbrev listed : List Text → Text
listed [] = []
listed (s ∷ []) = s
listed (s ∷ t ∷ []) = s ++ (codes " and " ++ t)
listed (s ∷ t ∷ u ∷ us) = s ++ (codes ", " ++ listed (t ∷ u ∷ us))

unfoldable pub invalid_labels : ConfigurationState → CushionShape → List Text
unfolding get_cushion_shape_definition get_measurement_label is_measurement_within_range
    measurement_eq
invalid_labels state s =
    map (λ m. get_measurement_label s m.field)
      (filter
        (λ m. not (is_measurement_within_range (measurement_of state m.field) m.field state.unit))
        (get_cushion_shape_definition s).measurement_fields)
    ++ (if has_equal_face (some s)
          && is_measurement_within_range state.width width state.unit
          && (not (measurement_eq state.height state.width)
              || not (is_measurement_within_range state.height height state.unit))
        then codes "equal face dimensions" ∷ []
        else [])

abbrev labels_message : List Text → Text → Text
labels_message [] name = codes "Check the " ++ (name ++ codes " measurements.")
labels_message (l ∷ ls) name =
    codes "Enter valid "
    ++ (lower (listed (l ∷ ls)) ++ (codes " for the " ++ (name ++ codes " cushion.")))

-- `getInvalidMeasurementMessage` of a state that has a shape.
unfoldable pub get_invalid_measurement_message : ConfigurationState → CushionShape → Text
unfolding invalid_labels get_cushion_shape_definition
get_invalid_measurement_message state s =
    labels_message (invalid_labels state s) (get_cushion_shape_definition s).name

-- A pattern to review, or the issue with it.
pub data Selection : Type 0 where
  selected : ReviewPatternSummary → Selection
  refused : ReviewIssue → Selection

abbrev pattern_summary : Text → Text → Text → ReviewPatternSummary
pattern_summary name category colors = record {
  is_solid = false;
  name = name;
  category = category;
  colors = colors;
}

abbrev unavailable_message : Option UnavailableReason → Text
unavailable_message (some deleted) =
    codes "This saved custom pattern was deleted by its owner. Choose another pattern."
unavailable_message _ =
    codes
      "The custom pattern image is unavailable. Try restoring it again or choose another pattern."

-- An empty address is falsy.
abbrev pub is_shown_custom : CustomPattern → Bool
is_shown_custom p = elim p.unavailable_reason [
  | some reason ↦ false
  | none ↦ elim p.preview_url [ some (c ∷ s) ↦ true | some [] ↦ false | none ↦ false ]
]

abbrev pub select_custom : CustomPattern → Selection
select_custom p =
    if is_shown_custom p
    then selected (
        pattern_summary p.label (codes "Your uploaded pattern") (codes "Original uploaded colours"))
    else refused (
        issue (codes "custom-pattern-unavailable") (unavailable_message p.unavailable_reason)
          pattern)

abbrev pub select_found : Option PatternDefinition → Selection
select_found (some p) = selected (
    pattern_summary p.name (get_pattern_category_label p.category_id)
      (joined (codes ", ") (get_pattern_color_labels p.color_ids)))
select_found none = refused (
    issue (codes "pattern-unresolved")
      (codes "The selected pattern is unavailable. Choose another pattern.") pattern)

abbrev pub select_from : PatternCatalogueResult → Option Text → Selection
select_from loading id =
    refused
      (issue (codes "catalogue-loading") (codes "Wait for the patterns to finish loading.") pattern)
select_from (error issues) id = refused (
    issue (codes "catalogue-invalid")
      (codes "Patterns couldn't be loaded, so your pattern can't be checked yet.") pattern)
select_from empty id =
    refused (issue (codes "catalogue-empty") (codes "No patterns are available right now.") pattern)
select_from (ready patterns) none =
    refused (issue (codes "pattern-required") (codes "Choose a pattern.") pattern)
select_from (ready patterns) (some id) = select_found (find_pattern patterns id)

unfoldable pub select_pattern : Option PatternChoice → PatternCatalogueResult → Selection
unfolding find_pattern get_pattern_category_label get_pattern_color_labels
select_pattern (some (custom p)) catalogue = select_custom p
select_pattern (some (solid color)) catalogue = selected (record {
  is_solid = true;
  name = codes "Solid colour";
  category = codes "Plain fabric";
  colors = color;
})
select_pattern (some (built_in id)) catalogue = select_from catalogue (some id)
select_pattern none catalogue = select_from catalogue none

abbrev selection_issues : Selection → List ReviewIssue
selection_issues (selected p) = []
selection_issues (refused i) = i ∷ []

abbrev pub is_solid_choice : Option PatternChoice → Bool
is_solid_choice (some (solid color)) = true
is_solid_choice _ = false

abbrev measurements_issue : Text → ReviewIssue
measurements_issue message = issue (codes "measurements-invalid") message measurements

abbrev measurement_issues : Bool → Text → List ReviewIssue
measurement_issues true message = []
measurement_issues false message = measurements_issue message ∷ []

abbrev scale_issues : Bool → List ReviewIssue
scale_issues true = []
scale_issues false =
    issue (codes "pattern-scale-invalid") (codes "Choose a pattern size from 0.5× to 2.0×.")
      pattern_scale
    ∷ []

abbrev pub has_review_scale : ConfigurationState → Bool
has_review_scale state =
    is_solid_choice state.pattern || is_pattern_scale_within_range state.pattern_scale

abbrev pub are_measured : ConfigurationState → CushionShape → Bool
are_measured state s =
    has_valid_measurements_for_shape (some s) state.width state.height state.thickness state.unit
      state.back_width

-- The issues of a state that has a shape, in the order of the tests.
unfoldable pub review_issues :
    ConfigurationState → CushionShape → PatternCatalogueResult → List ReviewIssue
unfolding has_valid_measurements_for_shape get_invalid_measurement_message select_pattern
    is_pattern_scale_within_range
review_issues state s catalogue =
    measurement_issues (are_measured state s) (get_invalid_measurement_message state s)
    ++ (selection_issues (select_pattern state.pattern catalogue)
        ++ scale_issues (has_review_scale state))

abbrev pub are_given : ConfigurationState → Bool
are_given state = elim state.height [
  | none ↦ false
  | some h ↦ elim state.thickness [
    | none ↦ false
    | some t ↦ elim state.width [ some w ↦ true | none ↦ false ]
  ]
]

abbrev pub shape_required : ReviewIssue
shape_required = issue (codes "shape-required") (codes "Choose a cushion shape.") shape

module _ (number_text : Num → Text) where
  abbrev pub review_selected :
      List ReviewIssue → Selection → ConfigurationState → CushionShape → ReviewReadiness
  review_selected (i ∷ is) choice state s = incomplete (i ∷ is)
  review_selected [] (refused i) state s = incomplete []
  review_selected [] (selected p) state s =
      if are_given state
      then reviewed (build_summary number_text state s p)
      else incomplete (measurements_issue (codes "Enter all required measurements.") ∷ [])

  abbrev pub review_of :
      Option CushionShape → ConfigurationState → PatternCatalogueResult → ReviewReadiness
  review_of none state catalogue = incomplete (shape_required ∷ [])
  review_of (some s) state catalogue =
      review_selected (review_issues state s catalogue) (select_pattern state.pattern catalogue)
        state s

  -- `deriveReviewReadiness`
  unfoldable pub derive_review_readiness :
      ConfigurationState → PatternCatalogueResult → ReviewReadiness
  unfolding review_issues select_pattern build_summary
  derive_review_readiness state catalogue = review_of state.shape state catalogue
