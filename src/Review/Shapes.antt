-- ===== src/Review/Shapes.antt =====
-- frontend/data/shapes.ts: the shapes, and the measurements that each asks for.
use sewn_covers.Prelude.{Bool, true, false, Option, none, some, List, [], ◌∷◌, find, ◌≡◌, refl}
use sewn_covers.Text.{Text, codes, text_eq}
use sewn_covers.Configuration.{CushionShape, box, rectangle, round, square, tapered, shape_id}
use sewn_covers.Configuration.Measurements.{MeasurementField, width, height, back_width, thickness}

pub record Example : Type 0 where
  pub cm : Text
  pub inch : Text

pub record ShapeMeasurementDefinition : Type 0 where
  pub field : MeasurementField
  pub label : Text
  pub tip : Text
  pub example : Example

pub record CushionShapeDefinition : Type 0 where
  pub id : CushionShape
  pub name : Text
  pub label : Text
  pub description : Text
  pub measurement_fields : List ShapeMeasurementDefinition
  pub equal_face_dimensions : Bool

abbrev measured : MeasurementField → Text → Text → Text → Text → ShapeMeasurementDefinition
measured field label tip cm inch = record {
  field = field;
  label = label;
  tip = tip;
  example = record { cm = cm; inch = inch };
}

abbrev side_tip : Text
side_tip = codes "Measure straight across the side profile at its fullest point."

abbrev pub square_definition : CushionShapeDefinition
square_definition = record {
  id = square;
  name = codes "Square";
  label = codes "Square cushion";
  description = codes "Width and height are the same, like most throw cushions.";
  measurement_fields =
      measured width (codes "Width")
        (codes
          "Measure straight across the square face from edge to edge. Height will match this value.")
        (codes "45") (codes "17.75")
      ∷ measured thickness (codes "Thickness") side_tip (codes "8") (codes "3.15")
      ∷ [];
  equal_face_dimensions = true;
}

abbrev pub rectangle_definition : CushionShapeDefinition
rectangle_definition = record {
  id = rectangle;
  name = codes "Rectangle";
  label = codes "Rectangle cushion";
  description = codes "Longer on one side, like lumbar or sofa-back cushions.";
  measurement_fields =
      measured width (codes "Width") (codes "Measure from side to side across the face.")
        (codes "80") (codes "31.5")
      ∷ measured height (codes "Height") (codes "Measure from top to bottom across the face.")
          (codes "50") (codes "19.7")
      ∷ measured thickness (codes "Thickness") side_tip (codes "10") (codes "3.95")
      ∷ [];
  equal_face_dimensions = false;
}

abbrev pub box_definition : CushionShapeDefinition
box_definition = record {
  id = box;
  name = codes "Box / bench";
  label = codes "Box / bench cushion";
  description = codes "Thick, with straight sides, like seat cushions and bench pads.";
  measurement_fields =
      measured width (codes "Width") (codes "Measure from side to side across the top.")
        (codes "180") (codes "70.85")
      ∷ measured height (codes "Depth") (codes "Measure from front to back across the top.")
          (codes "60") (codes "23.6")
      ∷ measured thickness (codes "Thickness") side_tip (codes "12") (codes "4.7")
      ∷ [];
  equal_face_dimensions = false;
}

abbrev pub round_definition : CushionShapeDefinition
round_definition = record {
  id = round;
  name = codes "Round";
  label = codes "Round cushion";
  description = codes "A circle, like chair pads and floor cushions.";
  measurement_fields =
      measured width (codes "Diameter")
        (codes "Measure through the centre from edge to edge at the widest point.") (codes "50")
        (codes "19.7")
      ∷ measured thickness (codes "Thickness") side_tip (codes "8") (codes "3.15")
      ∷ [];
  equal_face_dimensions = true;
}

abbrev pub tapered_definition : CushionShapeDefinition
tapered_definition = record {
  id = tapered;
  name = codes "Tapered / trapezoid";
  label = codes "Tapered / trapezoid cushion";
  description = codes "Wider at the front than the back, like many chair seats.";
  measurement_fields =
      measured width (codes "Front width")
        (codes "Measure the wider front edge from corner to corner.") (codes "80") (codes "31.5")
      ∷ measured back_width (codes "Back width")
          (codes "Measure the opposite back edge from corner to corner.") (codes "65")
          (codes "25.6")
      ∷ measured height (codes "Depth")
          (codes "Measure through the centre from the front edge to the back edge.") (codes "55")
          (codes "21.65")
      ∷ measured thickness (codes "Thickness") side_tip (codes "10") (codes "3.95")
      ∷ [];
  equal_face_dimensions = false;
}

abbrev pub cushion_shape_definitions : List CushionShapeDefinition
cushion_shape_definitions =
    square_definition ∷ rectangle_definition ∷ box_definition ∷ round_definition
    ∷ tapered_definition ∷ []

unfoldable pub get_cushion_shape_definition : CushionShape → CushionShapeDefinition
get_cushion_shape_definition square = square_definition
get_cushion_shape_definition rectangle = rectangle_definition
get_cushion_shape_definition box = box_definition
get_cushion_shape_definition round = round_definition
get_cushion_shape_definition tapered = tapered_definition

abbrev has_id : CushionShape → CushionShapeDefinition → Bool
has_id shape definition = text_eq (shape_id definition.id) (shape_id shape)

-- The table has a definition for every shape, and this is the one that is found.
find-get_cushion_shape_definition :
    (shape : CushionShape)
    → find (has_id shape) cushion_shape_definitions ≡ some (get_cushion_shape_definition shape)
unfolding get_cushion_shape_definition text_eq
find-get_cushion_shape_definition square = refl
find-get_cushion_shape_definition rectangle = refl
find-get_cushion_shape_definition box = refl
find-get_cushion_shape_definition round = refl
find-get_cushion_shape_definition tapered = refl

abbrev is_field : MeasurementField → MeasurementField → Bool
is_field width width = true
is_field height height = true
is_field back_width back_width = true
is_field thickness thickness = true
is_field _ _ = false

unfoldable pub field_id : MeasurementField → Text
field_id width = codes "width"
field_id height = codes "height"
field_id back_width = codes "backWidth"
field_id thickness = codes "thickness"

unfoldable pub get_shape_measurement_definition :
    CushionShape → MeasurementField → Option ShapeMeasurementDefinition
unfolding get_cushion_shape_definition
get_shape_measurement_definition shape field =
    find (λ m. is_field m.field field) (get_cushion_shape_definition shape).measurement_fields

abbrev label_or : Option ShapeMeasurementDefinition → Text → Text
label_or (some m) other = m.label
label_or none other = other

unfoldable pub get_measurement_label : CushionShape → MeasurementField → Text
unfolding get_shape_measurement_definition field_id
get_measurement_label shape field =
    label_or (get_shape_measurement_definition shape field) (field_id field)
