-- ===== src/Design/Save/Invariant.antt =====
-- A share link is only shown for a record that the service confirmed, and no two requests overlap.
use sewn_covers.Prelude.{
  ℕ, ◌+◌, true, Option, none, some, List, [], ◌∷◌, length, ◌≡◌, refl, ap, subst, ◌∙◌, arith,
  Bool-cases, Option-cases, inl, inr,
}
use sewn_covers.Prelude.Result.{Result, ok, throw}
use sewn_covers.Text.{Text}
use sewn_covers.Value.{Value}
use sewn_covers.ApiClient.{ApiRequestStatus, connecting, cold_start, connected, retrying, failure}
use sewn_covers.Design.Contract.{CreateDesignRequest, DesignResponse, read_design_response}
use sewn_covers.Design.Request.{
  map_configuration_to_create_design, response_matches_request, designs_match, saved_matches,
}
use sewn_covers.Design.Save.{
  DesignSaveState, idle, saving, error, success, Stage, free, waiting, settling, Controller,
  initial_controller, begin, begin_unless_saved, submit_at, submit, on_status, caught,
  accepted_state, answered_state, on_answer, settle, Step, submits, reports, answers_with, settles,
  Steps, done, then_step,
}

abbrev pub in_flight : Stage → ℕ
in_flight (waiting request) = 1
in_flight _ = 0

-- The request that is waited for is the one that was sent last.
abbrev pub IsLatest : Stage → List CreateDesignRequest → Type 0
IsLatest (waiting request) [] = ⊥
IsLatest (waiting request) (r ∷ sent) = r ≡ request
IsLatest _ sent = Unit {0}

abbrev pub IsAnswered : Stage → Type 0
IsAnswered (waiting request) = ⊥
IsAnswered _ = Unit {0}

module _ (share_url_factory : Text → Option Text) where
  -- The last answer is a saved record, of the last request, with this id and this link.
  pub record Confirmation (id url : Text) (sent : List CreateDesignRequest)
      (answers : List (Option Value)) : Type 0 where
    pub request : CreateDesignRequest
    pub earlier : List CreateDesignRequest
    pub response : Value
    pub before : List (Option Value)
    pub saved : DesignResponse
    pub last_request : sent ≡ request ∷ earlier
    pub last_answer : answers ≡ some response ∷ before
    pub read : read_design_response response ≡ some saved
    pub same : designs_match saved.design request ≡ true
    pub shared : (saved.public_id ≡ id) × (share_url_factory id ≡ some url)

  abbrev pub IsConfirmed :
      DesignSaveState → Stage → List CreateDesignRequest → List (Option Value) → Type 0
  IsConfirmed (success id url) stage sent answers =
      IsAnswered stage × Confirmation id url sent answers
  IsConfirmed _ stage sent answers = Unit {0}

  pub record IsSound (c : Controller) : Type 0 where
    pub counted : length c.sent ≡ length c.answers + in_flight c.stage
    pub latest : IsLatest c.stage c.sent
    pub confirmed : IsConfirmed c.state c.stage c.sent c.answers

  caught-IsConfirmed :
      (m : Text) (st : DesignSaveState) (stage : Stage) (sent : List CreateDesignRequest)
      (answers : List (Option Value))
      → IsConfirmed (caught m st) stage sent answers
  caught-IsConfirmed m (error x) stage sent answers = tt
  caught-IsConfirmed m idle stage sent answers = tt
  caught-IsConfirmed m (saving x) stage sent answers = tt
  caught-IsConfirmed m (success id url) stage sent answers = tt

  module _ (request : CreateDesignRequest) (earlier : List CreateDesignRequest) (response : Value)
      (before : List (Option Value)) (st : DesignSaveState) where
    accepted-IsConfirmed :
        (o : Option DesignResponse)
        → read_design_response response ≡ o
        → saved_matches o request ≡ true
        → IsConfirmed
            (accepted_state share_url_factory o st)
            settling
            (request ∷ earlier)
            (some response ∷ before)
    accepted-IsConfirmed none found same = caught-IsConfirmed _ st settling _ _
    accepted-IsConfirmed (some saved) found same =
        elim (Option-cases (share_url_factory saved.public_id)) [
          | inl missing ↦ rw missing (caught-IsConfirmed _ st settling _ _)
          | inr (url, made) ↦ rw made (
            tt,
            record {
              request = request;
              earlier = earlier;
              response = response;
              before = before;
              saved = saved;
              last_request = refl;
              last_answer = refl;
              read = found;
              same = same;
              shared = (refl, made);
            },
          )
        ]

    response-IsConfirmed :
        IsConfirmed
          (answered_state share_url_factory request (some response) st)
          settling
          (request ∷ earlier)
          (some response ∷ before)
    unfolding answered_state response_matches_request
    response-IsConfirmed = elim (Bool-cases (response_matches_request response request)) [
      | inl fits ↦ rw fits (accepted-IsConfirmed (read_design_response response) refl fits)
      | inr other ↦ rw other (caught-IsConfirmed _ st settling _ _)
    ]

  answer-IsConfirmed :
      (request : CreateDesignRequest) (answer : Option Value) (sent : List CreateDesignRequest)
      (before : List (Option Value)) (st : DesignSaveState)
      → IsLatest (waiting request) sent
      → IsConfirmed
          (answered_state share_url_factory request answer st)
          settling
          sent
          (answer ∷ before)
  unfolding answered_state
  answer-IsConfirmed request answer [] before st l = absurd l
  answer-IsConfirmed request none (r ∷ earlier) before st l = caught-IsConfirmed _ st settling _ _
  answer-IsConfirmed request (some v) (r ∷ earlier) before st l =
      rw l (response-IsConfirmed request earlier v before st)

  -- Every event.
  begin-IsSound :
      (request : Result CreateDesignRequest) (c : Controller)
      → c.stage ≡ free
      → IsSound c
      → IsSound (begin request c)
  unfolding begin
  begin-IsSound (throw e) c at s = record {
    counted = rw (s.counted, at);
    latest = tt;
    confirmed = tt;
  }
  begin-IsSound (ok r) c at s = record {
    counted =
        let n : length c.sent ≡ length c.answers + in_flight c.stage = s.counted in
        let z : in_flight c.stage ≡ 0 = ap in_flight at in omega arith;
    latest = refl;
    confirmed = tt;
  }

  begin_unless_saved-IsSound :
      (st : DesignSaveState) (request : Result CreateDesignRequest) (c : Controller)
      → c.stage ≡ free
      → IsSound c
      → IsSound (begin_unless_saved st request c)
  begin_unless_saved-IsSound (success id url) request c at s = s
  begin_unless_saved-IsSound idle request c at s = begin-IsSound request c at s
  begin_unless_saved-IsSound (saving m) request c at s = begin-IsSound request c at s
  begin_unless_saved-IsSound (error m) request c at s = begin-IsSound request c at s

  submit_at-IsSound :
      (stage : Stage) (request : Result CreateDesignRequest) (c : Controller)
      → c.stage ≡ stage
      → IsSound c
      → IsSound (submit_at stage request c)
  submit_at-IsSound (waiting r) request c at s = s
  submit_at-IsSound settling request c at s = s
  submit_at-IsSound free request c at s = begin_unless_saved-IsSound c.state request c at s

  status-IsSound :
      (status : ApiRequestStatus) (c : Controller) → IsSound c → IsSound (on_status status c)
  unfolding on_status
  status-IsSound connected c s = s
  status-IsSound (retrying m) c s = s
  status-IsSound connecting c s = record { counted = s.counted; latest = s.latest; confirmed = tt }
  status-IsSound cold_start c s = record { counted = s.counted; latest = s.latest; confirmed = tt }
  status-IsSound (failure category m) c s = record {
    counted = s.counted;
    latest = s.latest;
    confirmed = tt;
  }

  answer-IsSound :
      (request : CreateDesignRequest) (answer : Option Value) (c : Controller)
      → c.stage ≡ waiting request
      → IsSound c
      → IsSound (on_answer share_url_factory request answer c)
  unfolding on_answer
  answer-IsSound request answer c at s = record {
    counted =
        let n : length c.sent ≡ length c.answers + in_flight c.stage = s.counted in
        let one : in_flight c.stage ≡ 1 = ap in_flight at in omega arith;
    latest = tt;
    confirmed =
        answer-IsConfirmed request answer c.sent c.answers c.state
          (subst (λ t. IsLatest t c.sent) at s.latest);
  }

  settled-IsConfirmed :
      (st : DesignSaveState) (stage : Stage) (sent : List CreateDesignRequest)
      (answers : List (Option Value))
      → IsConfirmed st stage sent answers
      → IsConfirmed st free sent answers
  settled-IsConfirmed (success id url) stage sent answers (_, confirmation) = (tt, confirmation)
  settled-IsConfirmed idle stage sent answers h = tt
  settled-IsConfirmed (saving m) stage sent answers h = tt
  settled-IsConfirmed (error m) stage sent answers h = tt

  settle-IsSound :
      (c : Controller) → c.stage ≡ settling → IsSound c → IsSound (settle share_url_factory c)
  unfolding settle
  settle-IsSound c at s = record {
    counted = s.counted ∙ ap (λ t. length c.answers + in_flight t) at;
    latest = tt;
    confirmed = settled-IsConfirmed c.state c.stage c.sent c.answers s.confirmed;
  }

  pub Step-IsSound : (c d : Controller) → Step share_url_factory c d → IsSound c → IsSound d
  unfolding submit
  Step-IsSound c _ (submits configuration legacy) s =
      submit_at-IsSound c.stage (map_configuration_to_create_design configuration legacy) c refl s
  Step-IsSound c _ (reports request status at) s = status-IsSound status c s
  Step-IsSound c _ (answers_with request answer at) s = answer-IsSound request answer c at s
  Step-IsSound c _ (settles at) s = settle-IsSound c at s

  pub Steps-from : (c d : Controller) → Steps share_url_factory c d → IsSound c → IsSound d
  Steps-from c _ done s = s
  Steps-from c e (then_step {d} ss last) s = Step-IsSound d e last (Steps-from c d ss s)

  initial-IsSound : IsSound initial_controller
  initial-IsSound = record { counted = refl; latest = tt; confirmed = tt }

  -- Whatever the service reports and answers, and however often the configuration is submitted, a
  -- controller that was reached from the initial one has at most one request without an answer (as
  -- many answers as requests, or one fewer while it waits), and is in the success state only with
  -- the id and the link of a record that was the last answer, was read, and matches the last request.
  pub Steps-IsSound : (c : Controller) → Steps share_url_factory initial_controller c → IsSound c
  Steps-IsSound c ss = Steps-from initial_controller c ss initial-IsSound
