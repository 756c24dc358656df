-- ===== src/SharedDesign/Controller.antt =====
-- `SharedDesignController`, as the steps between its awaits, with what surrounds it: the revision of
-- the configuration, which every edit raises, and the configurations that it has restored.
use sewn_covers.Prelude.{
  ℕ, suc, Bool, true, false, not, ◌&&◌, ◌==◌, if◌then◌else◌, Option, none, some, List, [], ◌∷◌, any,
  ◌≡◌, ◌⊎◌,
}
use sewn_covers.Text.{Text, codes, text_eq}
use sewn_covers.Value.{Value}
use sewn_covers.Configuration.{ConfigurationState, PatternChoice, built_in, solid, custom}
use sewn_covers.ApiClient.{
  ApiClientError, ApiRequestStatus, connecting, cold_start, connected, retrying, failure,
  connecting_message, status_message,
}
use sewn_covers.Patterns.{PatternCatalogueResult, PatternDefinition, empty, loading, error, ready}
use sewn_covers.SharedDesign.Restore.{
  configuration_from_response, is_unknown_design_error, is_malformed_response_error, SharedDesignId,
  absent, malformed, valid, read_shared_design_id,
}
pub mod Invariant
pub mod Reachable

-- The phases with a message of their own; those that restore or wait have a fixed one.
pub data LoadPhase : Type 0 where
  idle waiting_patterns restored catalogue_error failed malformed_id malformed_design : LoadPhase
  not_found pattern_unavailable superseded : LoadPhase
  fetching : (message : Text) → LoadPhase

-- A load that was started: its version, the id that it asks for, and the revision at its start.
pub record Load : Type 0 where
  pub version : ℕ
  pub public_id : Text
  pub revision : ℕ

-- A call of `restoreConfiguration`, with what was current at that time.
pub record Restoration : Type 0 where
  pub configuration : ConfigurationState
  pub revision : ℕ
  pub catalogue : PatternCatalogueResult
  pub active : Option Load

-- The fields of the controller, then what surrounds it: the revision of the configuration, the loads
-- that were started, the load that is not yet superseded, the records that came in answers, each with
-- its load, and the restorations.
pub record Controller : Type 0 where
  pub catalogue : PatternCatalogueResult
  pub loaded_revision : ℕ
  pub pending : Option ConfigurationState
  pub public_id : Option Text
  pub version : ℕ
  pub phase : LoadPhase
  pub revision : ℕ
  pub loads : List Load
  pub active : Option Load
  pub received : List (Load × Value)
  pub restorations : List Restoration

abbrev pub initial_controller : Controller
initial_controller = record {
  catalogue = loading;
  loaded_revision = 0;
  pending = none;
  public_id = none;
  version = 0;
  phase = idle;
  revision = 0;
  loads = [];
  active = none;
  received = [];
  restorations = [];
}

-- `cancel`, and its two lines where they stand by themselves.
unfoldable pub cancel : Controller → Controller
cancel c = record c { version = suc c.version; pending = none; active = none }

abbrev pub publish : LoadPhase → Controller → Controller
publish phase c = record c { phase = phase }

-- `#load` up to its await.
unfoldable pub start_load : Text → Controller → Controller
start_load id c =
    let load =
      let l : Load = record { version = suc c.version; public_id = id; revision = c.revision } in
      l in
    record c {
      version = suc c.version;
      loaded_revision = c.revision;
      phase = fetching connecting_message;
      loads = load ∷ c.loads;
      active = some load;
    }

abbrev pub begin : SharedDesignId → Controller → Controller
begin absent c = publish idle c
begin malformed c = publish malformed_id c
begin (valid id) c = start_load id (record c { public_id = some id })

abbrev pub load_again : Option Text → Controller → Controller
load_again none c = c
load_again (some id) c = start_load id (cancel c)

unfoldable pub retry : Controller → Controller
unfolding start_load cancel
retry c = load_again c.public_id c

unfoldable pub dismiss : Controller → Controller
unfolding cancel
dismiss c = publish idle (record (cancel c) { public_id = none })

unfoldable pub supersede : Controller → Controller
unfolding cancel
supersede c = publish superseded (cancel c)

unfoldable pub restore : ConfigurationState → Controller → Controller
restore configuration c = record c {
  pending = none;
  phase = restored;
  restorations =
      record {
        configuration = configuration;
        revision = c.revision;
        catalogue = c.catalogue;
        active = c.active;
      }
      ∷ c.restorations;
}

-- Is the pattern of the pending configuration in the catalogue?
unfoldable pub is_available : PatternCatalogueResult → Option PatternChoice → Bool
unfolding text_eq
is_available (ready patterns) (some (built_in id)) = any (λ p. text_eq p.id id) patterns
is_available _ _ = false

abbrev pub reconcile_pattern : PatternCatalogueResult → ConfigurationState → Controller → Controller
reconcile_pattern loading configuration c = publish waiting_patterns c
reconcile_pattern (error issues) configuration c = publish catalogue_error c
reconcile_pattern empty configuration c = publish pattern_unavailable c
reconcile_pattern (ready patterns) configuration c =
    if is_available (ready patterns) configuration.pattern
    then restore configuration c
    else publish pattern_unavailable c

abbrev pub is_solid : Option PatternChoice → Bool
is_solid (some (solid color)) = true
is_solid _ = false

abbrev pub reconcile_pending : Option ConfigurationState → Controller → Controller
reconcile_pending none c = c
reconcile_pending (some configuration) c =
    if not (c.revision == c.loaded_revision)
    then supersede c
    else if is_solid configuration.pattern
    then restore configuration c
    else reconcile_pattern c.catalogue configuration c

-- `#reconcile`
unfoldable pub reconcile : Controller → Controller
unfolding supersede restore is_available
reconcile c = reconcile_pending c.pending c

unfoldable pub update_catalogue : PatternCatalogueResult → Controller → Controller
unfolding reconcile
update_catalogue catalogue c = reconcile (record c { catalogue = catalogue })

abbrev pub watches_configuration : LoadPhase → Bool
watches_configuration (fetching message) = true
watches_configuration waiting_patterns = true
watches_configuration catalogue_error = true
watches_configuration pattern_unavailable = true
watches_configuration _ = false

unfoldable pub configuration_changed : Controller → Controller
unfolding supersede
configuration_changed c =
    if watches_configuration c.phase && not (c.revision == c.loaded_revision)
    then supersede c
    else c

-- `stateFromStatus`
abbrev pub phase_from_status : ApiRequestStatus → LoadPhase → LoadPhase
phase_from_status connecting phase = fetching (status_message connecting)
phase_from_status cold_start phase = fetching (status_message cold_start)
phase_from_status (retrying n) phase = fetching (status_message (retrying n))
phase_from_status connected phase = phase
phase_from_status (failure category message) phase = phase

unfoldable pub on_status : Load → ApiRequestStatus → Controller → Controller
on_status load status c =
    if load.version == c.version then publish (phase_from_status status c.phase) c else c

-- How `getDesign` settles.
pub data Answer : Type 0 where
  found : Value → Answer
  rejected : ApiClientError → Answer

abbrev pub error_phase : ApiClientError → LoadPhase
error_phase e =
    if is_unknown_design_error e
    then not_found
    else if is_malformed_response_error e
    then malformed_design
    else failed

abbrev pub take_configuration : Option ConfigurationState → Controller → Controller
take_configuration none c = publish malformed_design c
take_configuration (some configuration) c = reconcile (record c { pending = some configuration })

abbrev pub take_answer : Load → Answer → Controller → Controller
take_answer load (found response) c =
    take_configuration (configuration_from_response response load.public_id) c
take_answer load (rejected e) c = publish (error_phase e) c

-- `#load` from its answer on. An answer to another load than the last is dropped.
unfoldable pub on_answer : Load → Answer → Controller → Controller
unfolding reconcile configuration_from_response is_unknown_design_error is_malformed_response_error
on_answer load answer c = if load.version == c.version then take_answer load answer c else c

-- What came in an answer is kept beside the controller, whether it is used or dropped.
abbrev pub with_answer : Load → Answer → Controller → Controller
with_answer load (found response) c = record c { received = (load, response) ∷ c.received }
with_answer load (rejected e) c = c

abbrev pub IsStarted : Load → List Load → Type 0
IsStarted load [] = ⊥
IsStarted load (l ∷ ls) = (load ≡ l) ⊎ IsStarted load ls

module _ (get_all : Text → Option (List Text)) where
  unfoldable pub start : Text → PatternCatalogueResult → Controller → Controller
  unfolding read_shared_design_id start_load cancel
  start search catalogue c =
      begin (read_shared_design_id get_all search)
        (record (cancel c) { public_id = none; catalogue = catalogue })

  -- One event: a call of the page, an edit of the configuration, or a status or an answer of any load
  -- that was started.
  pub data Step (c : Controller) : Controller → Type 0 where
    starts :
        (search : Text) (catalogue : PatternCatalogueResult) → Step c (start search catalogue c)
    retries : Step c (retry c)
    updates : (catalogue : PatternCatalogueResult) → Step c (update_catalogue catalogue c)
    notices_change : Step c (configuration_changed c)
    dismisses : Step c (dismiss c)
    cancels : Step c (cancel c)
    edits : Step c (record c { revision = suc c.revision })
    reports :
        (load : Load) (status : ApiRequestStatus)
        → IsStarted load c.loads
        → Step c (on_status load status c)
    answers_with :
        (load : Load) (answer : Answer)
        → IsStarted load c.loads
        → Step c (on_answer load answer (with_answer load answer c))

  pub data Steps (c : Controller) : Controller → Type 0 where
    done : Steps c c
    then_step : {d e : Controller} → Steps c d → Step d e → Steps c e
