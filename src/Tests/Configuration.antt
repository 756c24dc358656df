-- ===== src/Tests/Configuration.antt =====
-- The configuration: frontend/context/configuration.
use sewn_covers.Prelude.{ℕ, ◌≤◌, true, none, some, List, [], ◌∷◌, ◌≡◌, ◌⊎◌, refl, sym}
use sewn_covers.Prelude.Result.{ok}
use sewn_covers.Number.{decimal, evaluation}
use sewn_covers.Text.{Text, codes}
use sewn_covers.Text.Patterns.{is_hex_color}
use sewn_covers.Configuration.{
  square, ConfigurationState, ConfigurationAction, set_shape, set_width, set_solid_color,
  set_pattern_scale, restore_draft, set_material_id, linen_blend, inch, cm, solid,
}
use sewn_covers.Configuration.Measurements.{
  rounded, is_finite_positive_measurement, has_valid_measurements_for_shape, round_measurement,
  is_measurement_within_range, parse_measurement_draft, is_nullable_committed_measurement,
  MeasurementField,
}
use sewn_covers.Configuration.Measurements.{
  rejected, incomplete, below_minimum, above_maximum, precision, not_positive, invalid,
  to_centimetres, measurement_ranges_cm,
}
use sewn_covers.Configuration.Cover.{has_supported_cover_options}
use sewn_covers.Configuration.Scale.{normalize_pattern_scale, pattern_scale_min, pattern_scale_max}
use sewn_covers.Configuration.Scale.Steps.{normalize_steps}
use sewn_covers.Configuration.Color.{normalize_hex_color}
use sewn_covers.Configuration.Color.Normal.{normalize_stable}
use sewn_covers.Configuration.Reducer.{
  initial_configuration_state, configuration_reducer, restore, is_unrestorable, is_known_shape,
  is_unrounded, is_unrounded_if_set, is_restorable_pattern, restored_pattern, is_unnormalized_scale,
}
use sewn_covers.Configuration.Reducer.Restore.{IsRestorable, restored, restore_lem}
use sewn_covers.Configuration.Reducer.Invariant.{
  IsWellFormed, initial-IsWellFormed, run, run-IsWellFormed,
}
use sewn_covers.Configuration.Draft.{sanitize_draft_configuration, storable_configuration}
use sewn_covers.Configuration.Draft.Sound.{IsDraft, sanitize-IsDraft}
use sewn_covers.Configuration.Draft.Restoring.{run-sanitize}
use sewn_covers.Configuration.Draft.RoundTrip.{sanitize-storable}

unfoldable pub opened : Unit {0}
unfolding restore is_unrestorable is_known_shape is_unrounded is_unrounded_if_set
    is_restorable_pattern restored_pattern is_unnormalized_scale has_valid_measurements_for_shape
    is_measurement_within_range round_measurement is_hex_color normalize_pattern_scale
    pattern_scale_min pattern_scale_max evaluation is_nullable_committed_measurement
    has_supported_cover_options
opened = tt

-- A square of 45 cm in a grey that was typed in lower case.
abbrev actions : List ConfigurationAction
actions =
    set_width (some (decimal 45 0))
    ∷ set_shape (some square)
    ∷ set_solid_color (codes " b8afa3 ")
    ∷ set_pattern_scale (decimal 123 2)
    ∷ []

abbrev pub grey_square : ConfigurationState
grey_square = record initial_configuration_state {
  shape = some square;
  width = some (decimal 45 0);
  height = some (decimal 45 0);
  pattern = some (solid (codes "#B8AFA3"));
  pattern_scale = decimal 12 1;
}

run-grey_square : run initial_configuration_state actions ≡ ok grey_square
unfolding run configuration_reducer is_nullable_committed_measurement normalize_hex_color
    normalize_pattern_scale pattern_scale_min pattern_scale_max evaluation
run-grey_square = refl

run-IsWellFormed_example : IsWellFormed grey_square
run-IsWellFormed_example =
    run-IsWellFormed initial_configuration_state actions grey_square initial-IsWellFormed
      (tt, (tt, (tt, (tt, tt)))) run-grey_square

sanitize-IsDraft_example :
    IsDraft (sanitize_draft_configuration (storable_configuration grey_square))
sanitize-IsDraft_example = sanitize-IsDraft (storable_configuration grey_square)

grey_square-IsDraft : IsDraft grey_square
unfolding rounded is_finite_positive_measurement is_hex_color normalize_pattern_scale
    pattern_scale_min pattern_scale_max evaluation
grey_square-IsDraft = record {
  width = (refl, refl);
  height = (refl, refl);
  back_width = tt;
  thickness = tt;
  equal_face = λ e. refl;
  pattern = refl;
  scale = refl;
}

sanitize-storable_grey_square :
    sanitize_draft_configuration (storable_configuration grey_square) ≡ grey_square
sanitize-storable_grey_square = sanitize-storable grey_square grey_square-IsDraft tt

-- A page that restores its stored draft and then chooses a linen blend.
abbrev restoring : List ConfigurationAction
restoring = restore_draft grey_square ∷ set_material_id linen_blend ∷ []

abbrev linen_square : ConfigurationState
linen_square = record grey_square { material = linen_blend }

linen_square_runs : run initial_configuration_state restoring ≡ ok linen_square
unfolding run configuration_reducer has_supported_cover_options
linen_square_runs = refl

run-sanitize_example : IsWellFormed linen_square
run-sanitize_example =
    run-sanitize restoring linen_square
      ((storable_configuration grey_square, sym sanitize-storable_grey_square), (tt, tt))
      linen_square_runs

normalize_stable_example :
    (is_hex_color (codes "#00FFAA") ≡ true)
    × (normalize_hex_color (codes "#00FFAA") ≡ some (codes "#00FFAA"))
unfolding normalize_hex_color
normalize_stable_example = normalize_stable (codes "00ffaa") (codes "#00FFAA") refl

normalize_steps_example :
    ((k : ℕ) × (5 ≤ k) × (k ≤ 20) × (decimal 12 1 ≡ decimal k 1))
    × (normalize_pattern_scale (decimal 12 1) ≡ some (decimal 12 1))
unfolding normalize_pattern_scale pattern_scale_min pattern_scale_max evaluation
normalize_steps_example = normalize_steps (decimal 123 2) (decimal 12 1) refl

-- Restoring a design with a thickness, and one without.
abbrev pub thick_square : ConfigurationState
thick_square = record grey_square { thickness = some (decimal 8 0) }

restore_runs :
    (restore initial_configuration_state thick_square none ≡ ok thick_square)
    × (restore thick_square grey_square none ≡ ok thick_square)
unfolding opened
restore_runs = (refl, refl)

restore_lem_example :
    (IsRestorable thick_square none
      × (restore initial_configuration_state thick_square none ≡ ok (restored thick_square none)))
    ⊎ ((IsRestorable thick_square none → ⊥)
        × (restore initial_configuration_state thick_square none ≡ ok initial_configuration_state))
restore_lem_example = restore_lem initial_configuration_state thick_square none

-- `parseMeasurementDraft`.
abbrev draft_45 : Text
draft_45 = codes " 45,5 "

parse_runs :
    (parse_measurement_draft draft_45 MeasurementField.width cm
      ≡ ok (record { issue = none; value = some (decimal 455 1) }))
    × (parse_measurement_draft (codes "45.") MeasurementField.width cm ≡ rejected incomplete)
    × (parse_measurement_draft (codes "9.99") MeasurementField.width cm ≡ rejected below_minimum)
    × (parse_measurement_draft (codes "118.12") MeasurementField.width inch
        ≡ rejected above_maximum)
    × (parse_measurement_draft (codes ".005") MeasurementField.width inch ≡ rejected precision)
    × (parse_measurement_draft (codes "0,0") MeasurementField.width inch ≡ rejected not_positive)
    × (parse_measurement_draft (codes "1e3") MeasurementField.width inch ≡ rejected invalid)
unfolding parse_measurement_draft to_centimetres measurement_ranges_cm is_measurement_within_range
    round_measurement evaluation
parse_runs = (refl, refl, refl, refl, refl, refl, refl)
