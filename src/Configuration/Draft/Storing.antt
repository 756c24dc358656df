-- ===== src/Configuration/Draft/Storing.antt =====
-- What a stored configuration reads back as: `JSON.parse(JSON.stringify(…))` of the storable form.
use sewn_covers.Prelude.{if◌then◌else◌, Option, none, some}
use sewn_covers.Number.{Num, is_finite}
use sewn_covers.Text.{codes}
use sewn_covers.Value.{Value, null, num, str, obj, end, field}
use sewn_covers.Configuration.Types.{
  CushionShape, PatternChoice, built_in, custom, solid, ConfigurationState, shape_id, unit_id,
  material_id, fit_id, closure_id, seam_id,
}

-- JSON has no infinities and no NaN: they are written as null. A finite number reads back as
-- itself (and -0 as 0, which is no measurement and no scale).
abbrev pub number_value : Num → Value
number_value n = if is_finite n then num n else null

abbrev pub measurement_value : Option Num → Value
measurement_value none = null
measurement_value (some n) = number_value n

-- `storableConfiguration` writes a custom pattern without its preview link and its reason.
abbrev pub pattern_value : Option PatternChoice → Value
pattern_value none = null
pattern_value (some (built_in id)) =
    obj (field "kind" (str (codes "built-in")) (field "patternId" (str id) end))
pattern_value (some (solid color)) =
    obj (field "kind" (str (codes "solid")) (field "color" (str color) end))
pattern_value (some (custom c)) = obj (
    field "kind" (str (codes "custom")) (
      field "assetId" (str c.asset_id) (
        field "derivativeId" (str c.derivative_id) (
          field "processingVersion" (str c.processing_version) (field "label" (str c.label) end)))))

abbrev pub shape_value : Option CushionShape → Value
shape_value none = null
shape_value (some s) = str (shape_id s)

unfoldable pub storable_configuration : ConfigurationState → Value
unfolding is_finite
storable_configuration c = obj (
    field "shape" (shape_value c.shape) (
      field "width" (measurement_value c.width) (
        field "height" (measurement_value c.height) (
          field "backWidth" (measurement_value c.back_width) (
            field "thickness" (measurement_value c.thickness) (
              field "unit" (str (unit_id c.unit)) (
                field "pattern" (pattern_value c.pattern) (
                  field "patternScale" (number_value c.pattern_scale) (
                    field "materialId" (str (material_id c.material)) (
                      field "fitPreference" (str (fit_id c.fit)) (
                        field "closureType" (str (closure_id c.closure))
                          (field "seamStyle" (str (seam_id c.seam)) end))))))))))))
