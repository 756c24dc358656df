-- ===== src/Patterns/Controller.antt =====
-- `PatternCatalogueController` of frontend/services/pattern-catalogue.ts, as the steps between its
-- awaits. The answer of a load comes from the warm-up of the API or from the client.
use sewn_covers.Prelude.{
  ℕ, suc, Bool, true, false, ◌&&◌, ◌||◌, ◌==◌, if◌then◌else◌, Option, none, some, List, [], ◌∷◌,
  ◌≡◌, ◌⊎◌, filter,
}
use sewn_covers.Text.{Text, codes, text_eq}
use sewn_covers.ApiClient.{
  ApiRequestStatus, connecting, cold_start, connected, retrying, failure, connecting_message,
  status_message, PatternResponse, Outcome, received, failed,
}
use sewn_covers.Patterns.Defs.{
  PatternDefinition, PatternFilters, PatternCatalogueResult, includes, all_pattern_categories,
  all_pattern_colors,
}
use sewn_covers.Patterns.Resolve.{resolve_pattern_responses}
pub mod Invariant

pub data CataloguePhase : Type 0 where
  empty error loading ready : CataloguePhase

pub record CatalogueState : Type 0 where
  pub all_patterns : List PatternDefinition
  pub filters : PatternFilters
  pub issues : List Text
  pub message : Text
  pub phase : CataloguePhase
  pub visible_patterns : List PatternDefinition

abbrev pub initial_pattern_filters : PatternFilters
initial_pattern_filters = record {
  category_id = all_pattern_categories;
  color_id = all_pattern_colors;
}

abbrev pub initial_catalogue : CatalogueState
initial_catalogue = record {
  all_patterns = [];
  filters = initial_pattern_filters;
  issues = [];
  message = connecting_message;
  phase = loading;
  visible_patterns = [];
}

-- A load that was started: the version of its request and its filters.
pub record Load : Type 0 where
  pub version : ℕ
  pub filters : PatternFilters

-- The controller, with the loads that it has started.
pub record Controller : Type 0 where
  pub state : CatalogueState
  pub version : ℕ
  pub loads : List Load

abbrev pub initial_controller : Controller
initial_controller = record { state = initial_catalogue; version = 0; loads = [] }

abbrev pub publish : CatalogueState → Controller → Controller
publish state c = record c { state = state }

-- `completeCatalogue`
abbrev pub is_complete : PatternFilters → Bool
is_complete f =
    text_eq f.category_id all_pattern_categories && text_eq f.color_id all_pattern_colors

abbrev pub waiting_state : Text → CatalogueState → CatalogueState
waiting_state message state = record state {
  issues = [];
  message = message;
  phase = loading;
  visible_patterns = [];
}

abbrev pub failed_state : List Text → Text → CatalogueState → CatalogueState
failed_state issues message state = record state {
  issues = issues;
  message = message;
  phase = error;
  visible_patterns = [];
}

unfoldable pub state_from_status : CatalogueState → ApiRequestStatus → CatalogueState
state_from_status state (failure category message) = failed_state [] message state
state_from_status state connected = state
state_from_status state connecting = waiting_state (status_message connecting) state
state_from_status state cold_start = waiting_state (status_message cold_start) state
state_from_status state (retrying retry) = waiting_state (status_message (retrying retry)) state

-- `#load` up to its first await.
unfoldable pub start_load : PatternFilters → Controller → Controller
start_load filters c = record {
  state = record (waiting_state connecting_message c.state) { filters = filters };
  version = suc c.version;
  loads = record { version = suc c.version; filters = filters } ∷ c.loads;
}

unfoldable pub load_initial : Controller → Controller
unfolding start_load
load_initial c = start_load initial_pattern_filters c

unfoldable pub retry : Controller → Controller
unfolding start_load
retry c = start_load c.state.filters c

unfoldable pub cancel_pending : Controller → Controller
cancel_pending c = record c { version = suc c.version }

unfoldable pub is_shown : PatternFilters → PatternDefinition → Bool
unfolding text_eq includes
is_shown f p =
    (text_eq f.category_id all_pattern_categories || text_eq p.category_id f.category_id)
    && (text_eq f.color_id all_pattern_colors || includes p.color_ids f.color_id)

abbrev pub loaded_message : Text
loaded_message = codes "Patterns loaded."

abbrev pub unmatched_message : Text
unmatched_message = codes "No patterns match these filters."

abbrev pub filtered_state :
    List PatternDefinition → PatternFilters → CatalogueState → CatalogueState
filtered_state [] f state = record state {
  filters = f;
  issues = [];
  message = unmatched_message;
  phase = empty;
  visible_patterns = [];
}
filtered_state (p ∷ ps) f state = record state {
  filters = f;
  issues = [];
  message = loaded_message;
  phase = ready;
  visible_patterns = p ∷ ps;
}

unfoldable pub set_filters : PatternFilters → Controller → Controller
unfolding is_shown
set_filters f c = publish (filtered_state (filter (is_shown f) c.state.all_patterns) f c.state) c

-- `onStatus` of a load.
unfoldable pub on_status : Load → ApiRequestStatus → Controller → Controller
unfolding state_from_status
on_status load status c =
    if load.version == c.version then publish (state_from_status c.state status) c else c

-- The `catch` of `#load`: an error that was published stays.
abbrev pub caught : CataloguePhase → CatalogueState → CatalogueState
caught error state = state
caught _ state =
    failed_state [] (codes "The SewnCovers API could not load patterns. Please try again.") state

abbrev pub emptied_message : Bool → Text
emptied_message true = codes "No patterns are currently available."
emptied_message false = unmatched_message

-- What `#load` publishes for the resolved patterns.
abbrev pub resolved_state :
    PatternFilters → PatternCatalogueResult → CatalogueState → CatalogueState
resolved_state filters (PatternCatalogueResult.error issues) state =
    failed_state issues (codes "The pattern data returned by the API could not be displayed.") state
resolved_state filters PatternCatalogueResult.empty state = record state {
  all_patterns = if is_complete filters then [] else state.all_patterns;
  issues = [];
  message = emptied_message (is_complete filters);
  phase = empty;
  visible_patterns = [];
}
resolved_state filters PatternCatalogueResult.loading state = state
resolved_state filters (PatternCatalogueResult.ready patterns) state = record {
  all_patterns = if is_complete filters then patterns else state.all_patterns;
  filters = filters;
  issues = [];
  message = loaded_message;
  phase = ready;
  visible_patterns = patterns;
}

abbrev issues_or : List Text → Text → List Text
issues_or [] message = message ∷ []
issues_or (issue ∷ issues) message = issue ∷ issues

abbrev result_of_phase : CataloguePhase → CatalogueState → PatternCatalogueResult
result_of_phase loading state = PatternCatalogueResult.loading
result_of_phase error state = PatternCatalogueResult.error (issues_or state.issues state.message)
result_of_phase _ state = PatternCatalogueResult.empty

abbrev complete_result : List PatternDefinition → CatalogueState → PatternCatalogueResult
complete_result [] state = result_of_phase state.phase state
complete_result (p ∷ ps) state = PatternCatalogueResult.ready (p ∷ ps)

unfoldable pub get_complete_catalogue_result : CatalogueState → PatternCatalogueResult
get_complete_catalogue_result state = complete_result state.all_patterns state

module _ (to_locale_lower_case : Text → Text) where
  abbrev pub answered_state :
      PatternFilters → Outcome (List PatternResponse) → CatalogueState → CatalogueState
  answered_state filters (failed e) state = caught state.phase state
  answered_state filters (received response) state =
      resolved_state filters
        (resolve_pattern_responses to_locale_lower_case (is_complete filters) (some filters)
          response)
        state

  -- `#load` from its answer on. An answer to another load than the last is dropped.
  unfoldable pub on_answer : Load → Outcome (List PatternResponse) → Controller → Controller
  unfolding text_eq resolve_pattern_responses
  on_answer load answer c =
      if load.version == c.version
      then publish (answered_state load.filters answer c.state) c
      else c

  abbrev pub IsStarted : Load → List Load → Type 0
  IsStarted load [] = ⊥
  IsStarted load (l ∷ ls) = (load ≡ l) ⊎ IsStarted load ls

  -- One event. Statuses and answers of every load that was started may still arrive.
  pub data Step (c : Controller) : Controller → Type 0 where
    loads_initially : Step c (load_initial c)
    retries : Step c (retry c)
    cancels : Step c (cancel_pending c)
    filters_by : (f : PatternFilters) → Step c (set_filters f c)
    reports :
        (load : Load) (status : ApiRequestStatus)
        → IsStarted load c.loads
        → Step c (on_status load status c)
    answers_with :
        (load : Load) (answer : Outcome (List PatternResponse))
        → IsStarted load c.loads
        → Step c (on_answer load answer c)

  pub data Steps (c : Controller) : Controller → Type 0 where
    done : Steps c c
    then_step : {d e : Controller} → Steps c d → Step d e → Steps c e
