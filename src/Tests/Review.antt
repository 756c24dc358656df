-- ===== src/Tests/Review.antt =====
-- The review of a design: frontend/components/configurator/review-summary.ts.
use sewn_covers.Prelude.{[], ◌∷◌, ◌≡◌, refl}
use sewn_covers.Number.{Num}
use sewn_covers.Text.{Text, codes}
use sewn_covers.Configuration.{box}
use sewn_covers.Patterns.{loading}
use sewn_covers.Review.{
  incomplete, shape_required, strip_zeros, get_invalid_measurement_message, get_measurement_label,
  derive_review_readiness, serialize_review_summary, shown,
}
use sewn_covers.Review.Readiness.Cases.{IsOutcome, derive_review_readiness-cases}
use sewn_covers.Configuration.Reducer.{initial_configuration_state}
use sewn_covers.Configuration.Measurements.{back_width}
use sewn_covers.Tests.Configuration.{thick_square}

-- The texts of numbers play no part in whether a design is ready.
abbrev number_text : Num → Text
number_text n = codes "8"

strip_zeros_runs :
    (strip_zeros (codes "45.00") ≡ codes "45")
    × (strip_zeros (codes "45.50") ≡ codes "45.5")
    × (strip_zeros (codes "400") ≡ codes "4")
unfolding strip_zeros
strip_zeros_runs = (refl, refl, refl)

message_runs :
    (get_invalid_measurement_message initial_configuration_state box
      ≡ codes "Enter valid width, depth and thickness for the Box / bench cushion.")
    × (get_measurement_label box back_width ≡ codes "backWidth")
unfolding get_invalid_measurement_message get_measurement_label
message_runs = (refl, refl)

readiness_runs :
    derive_review_readiness number_text initial_configuration_state loading
    ≡ incomplete (shape_required ∷ [])
unfolding derive_review_readiness
readiness_runs = refl

serialize_run :
    serialize_review_summary (record {
      fields = shown (codes "unit") (codes "Unit") (codes "Inches (in)") ∷ [];
      prototype_notice = codes "N";
    })
    ≡ codes "SewnCovers configuration summary\n\nUnit: Inches (in)\n\nPrototype notice\nN\n"
unfolding serialize_review_summary
serialize_run = refl

derive_review_readiness-cases_example :
    IsOutcome
      (derive_review_readiness number_text thick_square loading)
      thick_square.shape
      thick_square
      loading
derive_review_readiness-cases_example =
    derive_review_readiness-cases number_text thick_square loading
