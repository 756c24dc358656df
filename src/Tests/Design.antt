-- ===== src/Tests/Design.antt =====
-- Saving a design: frontend/services/design-save.ts and frontend/services/design-contract.ts.
use sewn_covers.Prelude.{true, Option, none, some, ◌++◌, ◌≡◌, refl, ap}
use sewn_covers.Prelude.Result.{ok}
use sewn_covers.Number.{has_at_most_decimal_places}
use sewn_covers.Text.{Text, codes}
use sewn_covers.Text.Patterns.{is_public_id}
use sewn_covers.Value.{Value, str, obj, field}
use sewn_covers.Configuration.{square}
use sewn_covers.Design.{
  CreateDesignRequest, request_of, map_configuration_to_create_design, create_request,
  request_fields, read_design_response, response_matches_request, is_ready,
}
use sewn_covers.Configuration.{PatternChoice}
use sewn_covers.Text.Patterns.{is_pattern_id}
use sewn_covers.Design.Echo.{IsRequest}
use sewn_covers.Design.Project.{
  ProjectConfiguration, project_solid, validation_state, IsSavedAs,
  map_configuration_to_project_configuration, map_project-pattern,
}
use sewn_covers.Design.Accepted.{read_design_response-map_configuration}
use sewn_covers.Design.Save.{
  success, waiting, settling, Controller, initial_controller, begin, submit, answered_state,
  on_answer, settle, submits, answers_with, settles, Steps, done, then_step,
}
use sewn_covers.Design.Save.Invariant.{IsSound, Steps-IsSound}
use sewn_covers.Design.Save.Final.{Steps-saved}
use sewn_covers.Tests.Configuration.{thick_square, opened}
use sewn_covers.Number.{decimal}

abbrev pub request : CreateDesignRequest
request =
    request_of thick_square none square (decimal 45 0) (decimal 45 0) (decimal 8 0) (decimal 12 1)

abbrev pub public_id : Text
public_id = codes "AbCdEfGhIjKlMnOpQr_-12"

pub mapped : map_configuration_to_create_design thick_square none ≡ ok request
unfolding map_configuration_to_create_design create_request is_ready opened
    has_at_most_decimal_places
mapped = refl

pub id_fits : is_public_id public_id ≡ true
unfolding is_public_id
id_fits = refl

read_design_response-map_configuration_example :
    (read_design_response (obj (field "publicId" (str public_id) (request_fields request)))
      ≡ some (record { design = request; public_id = public_id }))
    × (response_matches_request
          (obj (field "publicId" (str public_id) (request_fields request)))
          request
        ≡ true)
read_design_response-map_configuration_example =
    read_design_response-map_configuration thick_square none request public_id mapped id_fits

-- The configuration is submitted, the service answers with the saved record, and the promise ends.
abbrev share_link : Text → Option Text
share_link id = some (codes "https://sewncovers.example/configure/?design=" ++ id)

abbrev response : Value
response = obj (field "publicId" (str public_id) (request_fields request))

abbrev submitted : Controller
submitted = submit thick_square none initial_controller

submitted_waits : submitted.stage ≡ waiting request
unfolding submit begin
submitted_waits = ap (λ m. (begin m initial_controller).stage) mapped

abbrev answered : Controller
answered = on_answer share_link request (some response) submitted

answered_ended : answered.stage ≡ settling
unfolding on_answer
answered_ended = refl

answered_success :
    answered.state
    ≡ success public_id (codes "https://sewncovers.example/configure/?design=" ++ public_id)
unfolding on_answer answered_state
answered_success =
    let (found, matched) = read_design_response-map_configuration_example in
    rw matched (rw found refl)

answered_run : Steps share_link initial_controller answered
answered_run =
    then_step (then_step done (submits thick_square none))
      (answers_with request (some response) submitted_waits)

Steps-IsSound_example : IsSound share_link answered
Steps-IsSound_example = Steps-IsSound share_link answered answered_run

Steps-saved_example :
    ((settle share_link answered).state
      ≡ success public_id (codes "https://sewncovers.example/configure/?design=" ++ public_id))
    × ((settle share_link answered).sent ≡ answered.sent)
Steps-saved_example =
    Steps-saved share_link answered (settle share_link answered) public_id
      (codes "https://sewncovers.example/configure/?design=" ++ public_id) answered_run
      answered_success (then_step done (settles answered_ended))

-- The same cushion, saved to a project: the colour stays, though a public pattern was validated.
abbrev project : ProjectConfiguration
project = record {
  common =
      request_of (validation_state thick_square) none square (decimal 45 0) (decimal 45 0)
        (decimal 8 0) (decimal 12 1);
  pattern = project_solid (codes "#B8AFA3");
}

project_mapped : map_configuration_to_project_configuration thick_square none ≡ ok project
unfolding map_configuration_to_project_configuration map_configuration_to_create_design
    create_request is_ready opened has_at_most_decimal_places is_pattern_id
project_mapped = refl

map_project-pattern_example :
    ((q : PatternChoice) × (thick_square.pattern ≡ some q) × IsSavedAs q project)
    × IsRequest project.common
map_project-pattern_example = map_project-pattern thick_square none project project_mapped
