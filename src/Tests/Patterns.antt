-- ===== src/Tests/Patterns.antt =====
-- Pattern catalogues: frontend/data/patterns.ts and frontend/services/pattern-catalogue.ts.
use sewn_covers.Prelude.{false, true, none, List, [], ◌∷◌, ◌≡◌, ◌⊎◌, inl, refl, map}
use sewn_covers.Text.{Text, codes}
use sewn_covers.ApiClient.{PatternResponse, received}
use sewn_covers.Patterns.{ready, error, resolve_pattern_responses}
use sewn_covers.Patterns.Sound.{is_valid_catalogue, definition_of, resolve-cases}
use sewn_covers.Patterns.Controller.{
  Controller, Load, initial_controller, initial_pattern_filters, load_initial, on_answer,
  start_load, Steps, done, then_step, loads_initially, answers_with,
}
use sewn_covers.Patterns.Controller.Invariant.{IsConsistent, Steps-IsConsistent}

abbrev kept : Text → Text
kept s = s

abbrev named : Text → PatternResponse
named id = record {
  id = id;
  name = codes "Prototype Botanical";
  description = codes "Leaves.";
  category_id = codes "botanical";
  color_ids = codes "green" ∷ [];
  preview_class_name = codes "botanical";
}

abbrev botanical : PatternResponse
botanical = named (codes "prototype-botanical")

resolve-cases_example :
    ((is_valid_catalogue kept false none (botanical ∷ []) ≡ true)
      × (resolve_pattern_responses kept false none (botanical ∷ [])
          ≡ ready (map definition_of (botanical ∷ []))))
    ⊎ ((is_valid_catalogue kept false none (botanical ∷ []) ≡ false)
        × ((first : Text) × (rest : List Text) × (resolve_pattern_responses kept false none
                (botanical ∷ [])
              ≡ error (first ∷ rest))))
resolve-cases_example = resolve-cases kept false none botanical []

-- An answer with one pattern is too short for a complete catalogue.
abbrev first_load : Load
first_load = record { version = 1; filters = initial_pattern_filters }

abbrev answered : Controller
answered = on_answer kept first_load (received (botanical ∷ [])) (load_initial initial_controller)

answered_run : Steps kept initial_controller answered
unfolding load_initial start_load
answered_run =
    then_step (then_step done loads_initially)
      (answers_with first_load (received (botanical ∷ [])) (inl refl))

Steps-IsConsistent_example : IsConsistent kept answered.state
Steps-IsConsistent_example = Steps-IsConsistent kept answered answered_run
