-- ===== src/Patterns/Controller/Invariant.antt =====
-- What the catalogue shows fits its phase, and the patterns that it keeps are a valid catalogue.
use sewn_covers.Prelude.{
  Bool, true, false, ◌==◌, if◌then◌else◌, some, List, [], ◌∷◌, map, filter, ◌≡◌, ◌⊎◌, inl, inr,
  refl, subst,
}
use sewn_covers.Text.{Text}
use sewn_covers.ApiClient.{
  ApiRequestStatus, connecting, cold_start, connected, retrying, failure, PatternResponse, Outcome,
  received, failed,
}
use sewn_covers.Patterns.Defs.{PatternDefinition, PatternFilters}
use sewn_covers.Patterns.Resolve.{resolve_pattern_responses}
use sewn_covers.Patterns.Sound.{definition_of, is_valid_catalogue, resolve-cases}
use sewn_covers.Patterns.Controller.{
  CataloguePhase, empty, error, loading, ready, CatalogueState, Controller, initial_controller,
  is_complete, state_from_status, start_load, load_initial, retry, cancel_pending, is_shown,
  filtered_state, set_filters, on_status, caught, resolved_state, answered_state, on_answer, Step,
  loads_initially, retries, cancels, filters_by, reports, answers_with, Steps, done, then_step,
}

-- Patterns are shown in the phase `ready`, and in no other.
abbrev pub IsShown : CataloguePhase → List PatternDefinition → Type 0
IsShown ready [] = ⊥
IsShown ready (p ∷ ps) = Unit {0}
IsShown empty [] = Unit {0}
IsShown empty (p ∷ ps) = ⊥
IsShown error [] = Unit {0}
IsShown error (p ∷ ps) = ⊥
IsShown loading [] = Unit {0}
IsShown loading (p ∷ ps) = ⊥

-- Issues are listed in the phase `error` only.
abbrev pub IsQuiet : CataloguePhase → List Text → Type 0
IsQuiet error issues = Unit {0}
IsQuiet ready [] = Unit {0}
IsQuiet empty [] = Unit {0}
IsQuiet loading [] = Unit {0}
IsQuiet _ (issue ∷ issues) = ⊥

module _ (to_locale_lower_case : Text → Text) where
  -- No patterns, or the definitions of a valid complete response.
  abbrev pub IsCatalogue : List PatternDefinition → Type 0
  IsCatalogue patterns =
      (patterns ≡ [])
      ⊎ ((filters : PatternFilters) × (response : List PatternResponse) × (is_valid_catalogue
              to_locale_lower_case true (some filters) response
            ≡ true)
          × (patterns ≡ map definition_of response))

  pub record IsConsistent (state : CatalogueState) : Type 0 where
    pub shown : IsShown state.phase state.visible_patterns
    pub quiet : IsQuiet state.phase state.issues
    pub kept : IsCatalogue state.all_patterns

  status-IsConsistent :
      (state : CatalogueState) (status : ApiRequestStatus)
      → IsConsistent state
      → IsConsistent (state_from_status state status)
  unfolding state_from_status
  status-IsConsistent state connected h = h
  status-IsConsistent state connecting h = record { shown = tt; quiet = tt; kept = h.kept }
  status-IsConsistent state cold_start h = record { shown = tt; quiet = tt; kept = h.kept }
  status-IsConsistent state (retrying n) h = record { shown = tt; quiet = tt; kept = h.kept }
  status-IsConsistent state (failure c m) h = record { shown = tt; quiet = tt; kept = h.kept }

  filtered-IsConsistent :
      (ps : List PatternDefinition) (f : PatternFilters) (state : CatalogueState)
      → IsConsistent state
      → IsConsistent (filtered_state ps f state)
  filtered-IsConsistent [] f state h = record { shown = tt; quiet = tt; kept = h.kept }
  filtered-IsConsistent (p ∷ ps) f state h = record { shown = tt; quiet = tt; kept = h.kept }

  caught-IsConsistent :
      (phase : CataloguePhase) (state : CatalogueState)
      → IsConsistent state
      → IsConsistent (caught phase state)
  caught-IsConsistent error state h = h
  caught-IsConsistent empty state h = record { shown = tt; quiet = tt; kept = h.kept }
  caught-IsConsistent loading state h = record { shown = tt; quiet = tt; kept = h.kept }
  caught-IsConsistent ready state h = record { shown = tt; quiet = tt; kept = h.kept }

  choice-IsCatalogue :
      (b : Bool) (ps qs : List PatternDefinition)
      → (b ≡ true → IsCatalogue ps)
      → IsCatalogue qs
      → IsCatalogue (if b then ps else qs)
  choice-IsCatalogue true ps qs h k = h refl
  choice-IsCatalogue false ps qs h k = k

  resolved-IsConsistent :
      (f : PatternFilters) (response : List PatternResponse) (state : CatalogueState)
      → IsConsistent state
      → IsConsistent (
          resolved_state f
            (resolve_pattern_responses to_locale_lower_case (is_complete f) (some f) response)
            state)
  unfolding resolve_pattern_responses
  resolved-IsConsistent f [] state h = record {
    shown = tt;
    quiet = tt;
    kept = choice-IsCatalogue (is_complete f) [] state.all_patterns (λ e. inl refl) h.kept;
  }
  resolved-IsConsistent f (p ∷ ps) state h =
      elim (resolve-cases to_locale_lower_case (is_complete f) (some f) p ps) [
        | inl (valid, found) ↦ rw found (record {
          shown = tt;
          quiet = tt;
          kept =
              choice-IsCatalogue (is_complete f) (map definition_of (p ∷ ps)) state.all_patterns
                (λ e. inr (
                  f,
                  p ∷ ps,
                  subst (λ b. is_valid_catalogue to_locale_lower_case b (some f) (p ∷ ps) ≡ true) e
                      valid,
                  refl,
                ))
                h.kept;
        })
        | inr (invalid, (first, rest, found)) ↦
            rw found (record { shown = tt; quiet = tt; kept = h.kept })
      ]

  answered-IsConsistent :
      (f : PatternFilters) (answer : Outcome (List PatternResponse)) (state : CatalogueState)
      → IsConsistent state
      → IsConsistent (answered_state to_locale_lower_case f answer state)
  answered-IsConsistent f (failed e) state h = caught-IsConsistent state.phase state h
  answered-IsConsistent f (received response) state h = resolved-IsConsistent f response state h

  chosen-IsConsistent :
      (b : Bool) (c d : Controller)
      → IsConsistent c.state
      → IsConsistent d.state
      → IsConsistent (if b then c else d).state
  chosen-IsConsistent true c d h k = h
  chosen-IsConsistent false c d h k = k

  started-IsConsistent :
      (f : PatternFilters) (c : Controller)
      → IsConsistent c.state
      → IsConsistent (start_load f c).state
  unfolding start_load
  started-IsConsistent f c h = record { shown = tt; quiet = tt; kept = h.kept }

  Step-IsConsistent :
      (c d : Controller)
      → Step to_locale_lower_case c d
      → IsConsistent c.state
      → IsConsistent d.state
  unfolding load_initial retry cancel_pending set_filters on_status on_answer
  Step-IsConsistent c _ loads_initially h = started-IsConsistent _ c h
  Step-IsConsistent c _ retries h = started-IsConsistent _ c h
  Step-IsConsistent c _ cancels h = h
  Step-IsConsistent c _ (filters_by f) h =
      filtered-IsConsistent (filter (is_shown f) c.state.all_patterns) f c.state h
  Step-IsConsistent c _ (reports load status l) h =
      chosen-IsConsistent (load.version == c.version)
        (record c { state = state_from_status c.state status }) c
        (status-IsConsistent c.state status h) h
  Step-IsConsistent c _ (answers_with load answer l) h =
      chosen-IsConsistent (load.version == c.version)
        (record c { state = answered_state to_locale_lower_case load.filters answer c.state }) c
        (answered-IsConsistent load.filters answer c.state h) h

  Steps-from :
      (c d : Controller)
      → Steps to_locale_lower_case c d
      → IsConsistent c.state
      → IsConsistent d.state
  Steps-from c _ done h = h
  Steps-from c e (then_step {d} ss last) h = Step-IsConsistent d e last (Steps-from c d ss h)

  -- However loads, answers, statuses, filters and cancellations interleave, the catalogue shows
  -- patterns exactly in the phase `ready`, lists issues only in the phase `error`, and keeps either no
  -- patterns or the definitions of one valid complete response.
  pub Steps-IsConsistent :
      (c : Controller) → Steps to_locale_lower_case initial_controller c → IsConsistent c.state
  Steps-IsConsistent c ss =
      Steps-from initial_controller c ss (record { shown = tt; quiet = tt; kept = inl refl })
