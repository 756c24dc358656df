-- ===== src/Clients/Assurance/Results.antt =====
-- What the calls of frontend/services/assurance-api.ts return is of the type that they declare.
use sewn_covers.Prelude.{true, [], ◌∷◌, ◌≡◌, refl}
use sewn_covers.Text.{Text}
use sewn_covers.Value.Interface.{Shape, is_interface, is_number, is_string}
use sewn_covers.Clients.Calling.{is_undefined, is_sendable, IsTyped, parses}
use sewn_covers.Clients.Assurance.Calls.{
  AssuranceCall, assurance_call, acknowledge, production_queue, work, checklist, create_issue,
  transition, quality, packet, readiness,
}
use sewn_covers.Clients.Assurance.Interfaces.{
  is_production_queue, is_production_work, is_readiness_report,
}
use sewn_covers.Clients.Assurance.Typed.{
  read_acknowledgement-Fits, read_packet-Fits, read_queue-Fits, read_readiness-Fits, read_work-Fits,
}

abbrev pub assurance_result : AssuranceCall → Shape
assurance_result (acknowledge _ _ _) = is_interface (
    ("id", is_number)
    ∷ ("documentType", is_string)
    ∷ ("documentVersion", is_number)
    ∷ ("purpose", is_string)
    ∷ ("acknowledgedAt", is_string)
    ∷ [])
assurance_result (production_queue _ _) = is_production_queue
assurance_result (work _ _) = is_production_work
assurance_result (checklist _ _ _ _) = is_production_work
assurance_result (create_issue _ _ _ _) = is_production_work
assurance_result (transition _ _ _ _) = is_production_work
assurance_result (quality _ _ _ _) = is_production_work
assurance_result (packet _ _) =
    is_interface
      (("content", is_string) ∷ ("checksum", is_string) ∷ ("generatedAt", is_string) ∷ [])
assurance_result readiness = is_readiness_report

module _ (encode : Text → Text) where
  pub assurance_call-IsTyped :
      (c : AssuranceCall) → IsTyped (assurance_call encode c) (assurance_result c)
  unfolding assurance_call is_undefined
  assurance_call-IsTyped (acknowledge _ _ _) = parses _ refl refl read_acknowledgement-Fits
  assurance_call-IsTyped (production_queue _ _) = parses _ refl refl read_queue-Fits
  assurance_call-IsTyped (work _ _) = parses _ refl refl read_work-Fits
  assurance_call-IsTyped (checklist _ _ _ _) = parses _ refl refl read_work-Fits
  assurance_call-IsTyped (create_issue _ _ _ _) = parses _ refl refl read_work-Fits
  assurance_call-IsTyped (transition _ _ _ _) = parses _ refl refl read_work-Fits
  assurance_call-IsTyped (quality _ _ _ _) = parses _ refl refl read_work-Fits
  assurance_call-IsTyped (packet _ _) = parses _ refl refl read_packet-Fits
  assurance_call-IsTyped readiness = parses _ refl refl read_readiness-Fits

  pub assurance_call-sendable : (c : AssuranceCall) → is_sendable (assurance_call encode c) ≡ true
  unfolding assurance_call is_sendable is_undefined
  assurance_call-sendable (acknowledge _ _ _) = refl
  assurance_call-sendable (production_queue _ _) = refl
  assurance_call-sendable (work _ _) = refl
  assurance_call-sendable (checklist _ _ _ _) = refl
  assurance_call-sendable (create_issue _ _ _ _) = refl
  assurance_call-sendable (transition _ _ _ _) = refl
  assurance_call-sendable (quality _ _ _ _) = refl
  assurance_call-sendable (packet _ _) = refl
  assurance_call-sendable readiness = refl
