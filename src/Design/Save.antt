-- ===== src/Design/Save.antt =====
-- `DesignSaveController` of frontend/services/design-save.ts, as the steps between its awaits. The
-- client is not called here: what it reports (`onStatus`) and how its promise settles are events.
use sewn_covers.Prelude.{
  ℕ, ◌+◌, Bool, true, false, if◌then◌else◌, Option, none, some, List, [], ◌∷◌, length, ◌≡◌,
}
use sewn_covers.Prelude.Result.{Result, ok, throw}
use sewn_covers.Text.{Text, codes}
use sewn_covers.Value.{Value}
use sewn_covers.Configuration.{ConfigurationState}
use sewn_covers.ApiClient.{
  ApiRequestStatus, connecting, cold_start, connected, retrying, failure, connecting_message,
  cold_start_message,
}
use sewn_covers.Design.Contract.{CreateDesignRequest, DesignResponse, read_design_response}
use sewn_covers.Design.Request.{map_configuration_to_create_design, response_matches_request}
pub mod Invariant
pub mod Final

pub data DesignSaveState : Type 0 where
  idle : DesignSaveState
  saving error : Text → DesignSaveState
  success : (public_id share_url : Text) → DesignSaveState

-- Where the promise `#pending` is: there is none; it waits for the answer to the request; or
-- `#save` is over and `finally` has still to run.
pub data Stage : Type 0 where
  free : Stage
  waiting : CreateDesignRequest → Stage
  settling : Stage

-- The controller, with the requests that it has sent and the answers that it was given, the latest
-- first. A rejected promise is the answer `none`.
pub record Controller : Type 0 where
  pub state : DesignSaveState
  pub stage : Stage
  pub sent : List CreateDesignRequest
  pub answers : List (Option Value)

abbrev pub initial_controller : Controller
initial_controller = record { state = idle; stage = free; sent = []; answers = [] }

abbrev pub not_ready_message : Text
not_ready_message =
    codes "This configuration is no longer ready to save. Review the fields and try again."

abbrev pub unverified_message : Text
unverified_message = codes "The saved design response could not be verified. Please try again."

abbrev pub unsaved_message : Text
unsaved_message = codes "The design could not be saved. Check your connection and try again."

-- `#save` up to the call of the client.
unfoldable pub begin : Result CreateDesignRequest → Controller → Controller
begin (throw e) c = record c { state = error not_ready_message; stage = settling }
begin (ok r) c = record c {
  state = saving connecting_message;
  stage = waiting r;
  sent = r ∷ c.sent;
}

abbrev pub begin_unless_saved :
    DesignSaveState → Result CreateDesignRequest → Controller → Controller
begin_unless_saved (success id url) request c = c
begin_unless_saved _ request c = begin request c

abbrev pub submit_at : Stage → Result CreateDesignRequest → Controller → Controller
submit_at free request c = begin_unless_saved c.state request c
submit_at _ request c = c

unfoldable pub submit : ConfigurationState → Option Text → Controller → Controller
unfolding begin map_configuration_to_create_design
submit configuration legacy c =
    submit_at c.stage (map_configuration_to_create_design configuration legacy) c

-- The callback `onStatus`.
unfoldable pub on_status : ApiRequestStatus → Controller → Controller
on_status connecting c = record c { state = saving connecting_message }
on_status cold_start c = record c { state = saving cold_start_message }
on_status (failure category message) c = record c { state = error message }
on_status connected c = c
on_status (retrying retry) c = c

-- The `catch` of `#save`: an error that was published stays.
abbrev pub caught : Text → DesignSaveState → DesignSaveState
caught message (error m) = error m
caught message _ = error message

abbrev pub saved_state : Option Text → Text → DesignSaveState → DesignSaveState
saved_state none id state = caught unsaved_message state
saved_state (some url) id state = success id url

-- `#save` from the answer on. The factory of share links is an argument of the controller; it is
-- `none` where it throws.
module _ (share_url_factory : Text → Option Text) where
  abbrev pub accepted_state : Option DesignResponse → DesignSaveState → DesignSaveState
  accepted_state none state = caught unverified_message state
  accepted_state (some saved) state =
      saved_state (share_url_factory saved.public_id) saved.public_id state

  unfoldable pub answered_state :
      CreateDesignRequest → Option Value → DesignSaveState → DesignSaveState
  unfolding response_matches_request read_design_response
  answered_state request none state = caught unsaved_message state
  answered_state request (some response) state =
      if response_matches_request response request
      then accepted_state (read_design_response response) state
      else caught unverified_message state

  unfoldable pub on_answer : CreateDesignRequest → Option Value → Controller → Controller
  unfolding answered_state
  on_answer request answer c = record c {
    state = answered_state request answer c.state;
    stage = settling;
    answers = answer ∷ c.answers;
  }

  -- `finally`.
  unfoldable pub settle : Controller → Controller
  settle c = record c { stage = free }

  -- One event. A status and an answer arrive only while the request waits.
  pub data Step (c : Controller) : Controller → Type 0 where
    submits :
        (configuration : ConfigurationState) (legacy : Option Text)
        → Step c (submit configuration legacy c)
    reports :
        (request : CreateDesignRequest) (status : ApiRequestStatus)
        → c.stage ≡ waiting request
        → Step c (on_status status c)
    answers_with :
        (request : CreateDesignRequest) (answer : Option Value)
        → c.stage ≡ waiting request
        → Step c (on_answer request answer c)
    settles : c.stage ≡ settling → Step c (settle c)

  -- From one controller to another in any number of steps.
  pub data Steps (c : Controller) : Controller → Type 0 where
    done : Steps c c
    then_step : {d e : Controller} → Steps c d → Step d e → Steps c e
