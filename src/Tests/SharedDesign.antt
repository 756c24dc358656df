-- ===== src/Tests/SharedDesign.antt =====
-- Shared designs: frontend/services/shared-design.ts.
use sewn_covers.Prelude.{Option, none, some, List, [], ◌∷◌, ◌≡◌, inl, refl}
use sewn_covers.Text.{Text, codes}
use sewn_covers.Text.Patterns.{is_public_id}
use sewn_covers.Value.{Value, str, obj, field}
use sewn_covers.Design.{request_fields}
use sewn_covers.Patterns.{loading}
use sewn_covers.SharedDesign.{configuration_from_response, read_shared_design_id}
use sewn_covers.SharedDesign.RoundTrip.{shared, configuration_from_response-map_configuration}
use sewn_covers.SharedDesign.Progress.{restoration, on_answer-saved}
use sewn_covers.SharedDesign.Controller.{
  Controller, Load, initial_controller, restored, found, start, start_load, cancel, on_answer,
  with_answer, Steps, done, then_step, starts, answers_with,
}
use sewn_covers.SharedDesign.Controller.Invariant.{IsSound}
use sewn_covers.SharedDesign.Controller.Reachable.{Steps-restorations}
use sewn_covers.Tests.Configuration.{thick_square}
use sewn_covers.Tests.Design.{request, public_id, mapped, id_fits}

abbrev response : Value
response = obj (field "publicId" (str public_id) (request_fields request))

configuration_from_response-map_configuration_example :
    configuration_from_response
      (obj (field "publicId" (str public_id) (request_fields request)))
      public_id
    ≡ some (shared thick_square)
configuration_from_response-map_configuration_example =
    configuration_from_response-map_configuration thick_square request public_id mapped id_fits

-- A link with one `design`.
abbrev get_all : Text → Option (List Text)
get_all query = some (public_id ∷ [])

abbrev search : Text
search = codes "?design=AbCdEfGhIjKlMnOpQr_-12"

abbrev load : Load
load = record { version = 2; public_id = public_id; revision = 0 }

abbrev opened : Controller
opened = start_load public_id (record (cancel initial_controller) { public_id = some public_id })

opened_run : start get_all search loading initial_controller ≡ opened
unfolding start read_shared_design_id is_public_id cancel start_load
opened_run = refl

opened_fields :
    (opened.version ≡ 2) × (opened.revision ≡ opened.loaded_revision) × (opened.loads ≡ load ∷ [])
unfolding start_load cancel
opened_fields = (refl, refl, refl)

abbrev answered : Controller
answered =
    on_answer load (found response)
      (with_answer load (found response) (start get_all search loading initial_controller))

answered_run : Steps get_all initial_controller answered
unfolding start read_shared_design_id is_public_id cancel start_load
answered_run =
    then_step (then_step done (starts search loading))
      (answers_with load (found response) (inl refl))

Steps-restorations_example : IsSound answered
Steps-restorations_example = Steps-restorations get_all answered answered_run

opened_version : load.version ≡ opened.version
unfolding start_load cancel
opened_version = refl

opened_revision : opened.revision ≡ opened.loaded_revision
unfolding start_load cancel
opened_revision = refl

on_answer-saved_example :
    ((on_answer load (found response) opened).phase ≡ restored)
    × ((on_answer load (found response) opened).pending ≡ none)
    × ((on_answer load (found response) opened).restorations
        ≡ restoration (shared thick_square) opened ∷ opened.restorations)
on_answer-saved_example =
    on_answer-saved thick_square request load opened mapped id_fits opened_version opened_revision
      refl
