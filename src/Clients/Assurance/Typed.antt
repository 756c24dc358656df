-- ===== src/Clients/Assurance/Typed.antt =====
-- Every reader of frontend/services/assurance-api.ts returns values of the interface that its type names.
use sewn_covers.Prelude.{[], ◌∷◌}
use sewn_covers.Value.Interface.{
  Fits, record_of-Fits, list_of-Fits, is_string, is_number, is_object, is_array, is_interface,
}
use sewn_covers.Value.Typed.{typing}
use sewn_covers.Clients.Assurance.Tables.{
  record_list, read_work, read_queue, read_acknowledgement, read_packet, read_readiness_check,
  read_readiness,
}
use sewn_covers.Clients.Assurance.Interfaces.{
  is_production_queue, is_production_work, is_readiness_check, is_readiness_report,
  production_queue_interface, production_work_interface, readiness_check_interface,
  readiness_report_interface,
}

pub record_list-Fits : Fits record_list (is_array is_object)
record_list-Fits = list_of-Fits _ _ (search typing)

pub read_work-Fits : Fits read_work is_production_work
read_work-Fits = record_of-Fits _ production_work_interface (search (typing, record_list-Fits))

pub read_queue-Fits : Fits read_queue is_production_queue
read_queue-Fits = record_of-Fits _ production_queue_interface (search (typing, read_work-Fits))

pub read_acknowledgement-Fits : Fits read_acknowledgement (
    is_interface (
      ("id", is_number)
      ∷ ("documentType", is_string)
      ∷ ("documentVersion", is_number)
      ∷ ("purpose", is_string)
      ∷ ("acknowledgedAt", is_string)
      ∷ []))
read_acknowledgement-Fits =
    record_of-Fits _
      (("id", is_number)
        ∷ ("documentType", is_string)
        ∷ ("documentVersion", is_number)
        ∷ ("purpose", is_string)
        ∷ ("acknowledgedAt", is_string)
        ∷ [])
      (search typing)

pub read_packet-Fits : Fits read_packet (
    is_interface
      (("content", is_string) ∷ ("checksum", is_string) ∷ ("generatedAt", is_string) ∷ []))
read_packet-Fits =
    record_of-Fits _
      (("content", is_string) ∷ ("checksum", is_string) ∷ ("generatedAt", is_string) ∷ [])
      (search typing)

pub read_readiness_check-Fits : Fits read_readiness_check is_readiness_check
read_readiness_check-Fits = record_of-Fits _ readiness_check_interface (search typing)

pub read_readiness-Fits : Fits read_readiness is_readiness_report
read_readiness-Fits =
    record_of-Fits _ readiness_report_interface (search (typing, read_readiness_check-Fits))
