-- ===== src/SharedDesign/Controller/Reachable.antt =====
-- Every event keeps the controller sound.
use sewn_covers.Prelude.{
  not, ◌&&◌, ◌==◌, Option, none, some, List, ◌≡◌, inl, inr, refl, Bool-cases, Option-cases, ==→eq,
}
use sewn_covers.Text.{Text}
use sewn_covers.ApiClient.{ApiRequestStatus}
use sewn_covers.SharedDesign.Restore.{
  configuration_from_response, SharedDesignId, absent, malformed, valid, read_shared_design_id,
}
use sewn_covers.SharedDesign.Controller.{
  Load, Controller, initial_controller, cancel, begin, load_again, retry, dismiss, update_catalogue,
  watches_configuration, configuration_changed, on_status, Answer, found, rejected, take_answer,
  on_answer, with_answer, IsStarted, start, Step, starts, retries, updates, notices_change,
  dismisses, cancels, edits, reports, answers_with, Steps, done, then_step,
}
use sewn_covers.SharedDesign.Controller.Invariant.{
  IsSound, IsReceived, IsPending-more, AreLegitimate-more, started-IsCurrent, publish-IsSound,
  cancel-IsSound, start_load-IsSound, supersede-IsSound, reconcile-IsSound,
}

begin-IsSound :
    (id : SharedDesignId) (c : Controller) → c.pending ≡ none → IsSound c → IsSound (begin id c)
begin-IsSound absent c p s = publish-IsSound _ c s
begin-IsSound malformed c p s = publish-IsSound _ c s
begin-IsSound (valid id) c p s =
    start_load-IsSound id (record c { public_id = some id }) p
      (record { ordered = s.ordered; sourced = s.sourced; legitimate = s.legitimate })

load_again-IsSound : (o : Option Text) (c : Controller) → IsSound c → IsSound (load_again o c)
unfolding cancel
load_again-IsSound none c s = s
load_again-IsSound (some id) c s = start_load-IsSound id (cancel c) refl (cancel-IsSound c s)

configuration_changed-IsSound : (c : Controller) → IsSound c → IsSound (configuration_changed c)
unfolding configuration_changed
configuration_changed-IsSound c s =
    elim (Bool-cases (watches_configuration c.phase && not (c.revision == c.loaded_revision))) [
      | inl edited ↦ rw edited (supersede-IsSound c s)
      | inr quiet ↦ rw quiet s
    ]

on_status-IsSound :
    (load : Load) (status : ApiRequestStatus) (c : Controller)
    → IsSound c
    → IsSound (on_status load status c)
unfolding on_status
on_status-IsSound load status c s = elim (Bool-cases (load.version == c.version)) [
  | inl last ↦ rw last (publish-IsSound _ c s)
  | inr old ↦ rw old s
]

-- A record that is taken is one that came in an answer.
abbrev WasGiven : Load → Answer → Controller → Type 0
WasGiven load (found response) c = IsReceived load response c.received
WasGiven load (rejected e) c = Unit {0}

with_answer-WasGiven :
    (load : Load) (answer : Answer) (c : Controller)
    → WasGiven load answer (with_answer load answer c)
with_answer-WasGiven load (found response) c = inl (refl, refl)
with_answer-WasGiven load (rejected e) c = tt

with_answer-IsSound :
    (load : Load) (answer : Answer) (c : Controller)
    → IsSound c
    → IsSound (with_answer load answer c)
with_answer-IsSound load (rejected e) c s = s
with_answer-IsSound load (found response) c s = record {
  ordered = s.ordered;
  sourced = IsPending-more c.received load response c.pending c.active c.loaded_revision s.sourced;
  legitimate = AreLegitimate-more c.received load response c.restorations s.legitimate;
}

loads-with_answer :
    (load : Load) (answer : Answer) (c : Controller) → (with_answer load answer c).loads ≡ c.loads
loads-with_answer load (found response) c = refl
loads-with_answer load (rejected e) c = refl

take_answer-IsSound :
    (load : Load) (answer : Answer) (c : Controller)
    → IsStarted load c.loads
    → WasGiven load answer c
    → load.version ≡ c.version
    → IsSound c
    → IsSound (take_answer load answer c)
take_answer-IsSound load (rejected e) c started given same s = publish-IsSound _ c s
take_answer-IsSound load (found response) c started given same s =
    elim (Option-cases (configuration_from_response response load.public_id)) [
      | inl unread ↦ rw unread (publish-IsSound _ c s)
      | inr (configuration, read) ↦
          let (active, revision) =
            started-IsCurrent c.version c.active c.loaded_revision c.loads load s.ordered started
              same in
          rw read (
            reconcile-IsSound (record c { pending = some configuration })
              (record {
                ordered = s.ordered;
                sourced = (load, response, active, revision, given, read);
                legitimate = s.legitimate;
              }))
    ]

on_answer-IsSound :
    (load : Load) (answer : Answer) (c : Controller)
    → IsStarted load c.loads
    → WasGiven load answer c
    → IsSound c
    → IsSound (on_answer load answer c)
unfolding on_answer
on_answer-IsSound load answer c started given s = elim (Bool-cases (load.version == c.version)) [
  | inl last ↦
      rw last
        (take_answer-IsSound load answer c started given (==→eq load.version c.version last) s)
  | inr old ↦ rw old s
]

module _ (get_all : Text → Option (List Text)) where
  Step-IsSound : (c d : Controller) → Step get_all c d → IsSound c → IsSound d
  unfolding start retry dismiss update_catalogue cancel
  Step-IsSound c _ (starts search catalogue) s =
      let stopped = cancel-IsSound c s in
      begin-IsSound (read_shared_design_id get_all search)
        (record (cancel c) { public_id = none; catalogue = catalogue }) refl
        (record { ordered = stopped.ordered; sourced = tt; legitimate = stopped.legitimate })
  Step-IsSound c _ retries s = load_again-IsSound c.public_id c s
  Step-IsSound c _ (updates catalogue) s =
      reconcile-IsSound (record c { catalogue = catalogue })
        (record { ordered = s.ordered; sourced = s.sourced; legitimate = s.legitimate })
  Step-IsSound c _ notices_change s = configuration_changed-IsSound c s
  Step-IsSound c _ dismisses s =
      let stopped = cancel-IsSound c s in
      record { ordered = stopped.ordered; sourced = tt; legitimate = stopped.legitimate }
  Step-IsSound c _ cancels s = cancel-IsSound c s
  Step-IsSound c _ edits s = record {
    ordered = s.ordered;
    sourced = s.sourced;
    legitimate = s.legitimate;
  }
  Step-IsSound c _ (reports load status started) s = on_status-IsSound load status c s
  Step-IsSound c _ (answers_with load answer started) s =
      on_answer-IsSound load answer (with_answer load answer c)
        (rw (loads-with_answer load answer c) started) (with_answer-WasGiven load answer c)
        (with_answer-IsSound load answer c s)

  Steps-from : (c d : Controller) → Steps get_all c d → IsSound c → IsSound d
  Steps-from c _ done s = s
  Steps-from c e (then_step {d} ss last) s = Step-IsSound d e last (Steps-from c d ss s)

  -- However links, edits, catalogues, retries, cancellations and late answers interleave, every
  -- configuration that was restored is read, under the id of the link, from a record that came in an
  -- answer to the load that was active then; the revision of the configuration was still that of the
  -- start of that load; and the pattern was a solid colour or one of the catalogue at that time.
  pub Steps-restorations : (c : Controller) → Steps get_all initial_controller c → IsSound c
  Steps-restorations c ss =
      Steps-from initial_controller c ss (record { ordered = tt; sourced = tt; legitimate = tt })
