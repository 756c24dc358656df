-- ===== src/Review/Summary.antt =====
-- The summary of a reviewed design: `buildSummary` and `serializeReviewSummary`.
use sewn_covers.Prelude.{Bool, if◌then◌else◌, Option, none, some, List, [], ◌∷◌, ◌++◌, map}
use sewn_covers.Number.{Num}
use sewn_covers.Text.{Text, codes}
use sewn_covers.Configuration.{CushionShape, MeasurementUnit, cm, inch, ConfigurationState, unit_id}
use sewn_covers.Configuration.Measurements.{MeasurementField, width, height, back_width, thickness}
use sewn_covers.Review.Shapes.{ShapeMeasurementDefinition, get_cushion_shape_definition, field_id}
use sewn_covers.Review.Format.{
  format_measurement, format_pattern_scale, material_name, fit_name, closure_name, seam_name,
}

pub record ReviewSummaryField : Type 0 where
  pub id : Text
  pub label : Text
  pub swatch_color : Option Text
  pub value : Text

pub record ReviewSummary : Type 0 where
  pub fields : List ReviewSummaryField
  pub prototype_notice : Text

pub record ReviewPatternSummary : Type 0 where
  pub is_solid : Bool
  pub name : Text
  pub category : Text
  pub colors : Text

abbrev pub prototype_notice_text : Text
prototype_notice_text =
    codes
      "SewnCovers is a portfolio prototype. This summary isn't an order or a quote, and nothing is made, charged for or shipped."

abbrev pub unit_label : MeasurementUnit → Text
unit_label cm = codes "Centimetres (cm)"
unit_label inch = codes "Inches (in)"

abbrev pub measurement_of : ConfigurationState → MeasurementField → Option Num
measurement_of state width = state.width
measurement_of state height = state.height
measurement_of state back_width = state.back_width
measurement_of state thickness = state.thickness

abbrev pub joined : Text → List Text → Text
joined separator [] = []
joined separator (s ∷ []) = s
joined separator (s ∷ t ∷ ts) = s ++ (separator ++ joined separator (t ∷ ts))

abbrev pub shown : Text → Text → Text → ReviewSummaryField
shown id label value = record { id = id; label = label; swatch_color = none; value = value }

module _ (number_text : Num → Text) where
  abbrev format_with_unit : Num → MeasurementUnit → Text
  format_with_unit value unit = format_measurement number_text (some value) ++ (b' ' ∷ unit_id unit)

  abbrev measurement_fields_of :
      (MeasurementField → Option Num)
      → MeasurementUnit
      → List ShapeMeasurementDefinition
      → List ReviewSummaryField
  measurement_fields_of values unit [] = []
  measurement_fields_of values unit (m ∷ ms) = elim (values m.field) [
    | none ↦ measurement_fields_of values unit ms
    | some value ↦
        shown (field_id m.field) m.label (format_with_unit value unit)
        ∷ measurement_fields_of values unit ms
  ]

  abbrev pattern_fields : ReviewPatternSummary → Num → List ReviewSummaryField
  pattern_fields p scale =
      if p.is_solid
      then shown (codes "fabric") (codes "Fabric") (codes "Solid colour")
        ∷ record {
          id = codes "solid-color";
          label = codes "Colour";
          swatch_color = some p.colors;
          value = codes "Custom colour · " ++ p.colors;
        }
        ∷ []
      else shown (codes "pattern") (codes "Pattern") p.name
        ∷ shown (codes "pattern-category") (codes "Pattern style") p.category
        ∷ shown (codes "pattern-colors") (codes "Pattern colours") p.colors
        ∷ shown (codes "pattern-scale") (codes "Pattern size")
            (format_pattern_scale number_text scale)
        ∷ []

  unfoldable pub build_summary :
      ConfigurationState → CushionShape → ReviewPatternSummary → ReviewSummary
  unfolding get_cushion_shape_definition format_measurement format_pattern_scale field_id
  build_summary state s p =
      let definition = get_cushion_shape_definition s in
      record {
        fields =
            (shown (codes "shape") (codes "Shape") definition.name ∷ [])
            ++ (measurement_fields_of (measurement_of state) state.unit
                  definition.measurement_fields
                ++ ((shown (codes "unit") (codes "Unit") (unit_label state.unit)
                      ∷ shown (codes "material") (codes "Material") (material_name state.material)
                      ∷ shown (codes "fit-preference") (codes "Fit") (fit_name state.fit)
                      ∷ shown (codes "closure-type") (codes "Opening") (closure_name state.closure)
                      ∷ shown (codes "seam-style") (codes "Edge finish") (seam_name state.seam)
                      ∷ [])
                    ++ pattern_fields p state.pattern_scale));
        prototype_notice = prototype_notice_text;
      }

abbrev line_of : ReviewSummaryField → Text
line_of f = f.label ++ (codes ": " ++ f.value)

-- `serializeReviewSummary`
unfoldable pub serialize_review_summary : ReviewSummary → Text
serialize_review_summary summary = joined (10 ∷ []) (
    (codes "SewnCovers configuration summary" ∷ [] ∷ [])
    ++ (map line_of summary.fields
        ++ ([] ∷ codes "Prototype notice" ∷ summary.prototype_notice ∷ [] ∷ [])))
