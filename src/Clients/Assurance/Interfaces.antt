-- ===== src/Clients/Assurance/Interfaces.antt =====
-- The interfaces of frontend/services/assurance-api.ts.
use sewn_covers.Prelude.{String, List, [], ◌∷◌}
use sewn_covers.Value.Interface.{
  Shape, is_string, is_number, is_boolean, is_true, is_known, is_object, is_array, is_interface,
}
use sewn_covers.Clients.Assurance.Tables.{readiness_levels}

abbrev pub readiness_check_interface : List (String × Shape)
readiness_check_interface =
    ("code", is_string) ∷ ("level", is_known readiness_levels) ∷ ("message", is_string) ∷ []

abbrev pub is_readiness_check : Shape
is_readiness_check = is_interface readiness_check_interface

abbrev pub readiness_report_interface : List (String × Shape)
readiness_report_interface =
    ("ready", is_boolean) ∷ ("checks", is_array is_readiness_check) ∷ ("disclaimer", is_string) ∷ []

abbrev pub is_readiness_report : Shape
is_readiness_report = is_interface readiness_report_interface

abbrev pub production_work_interface : List (String × Shape)
production_work_interface =
    ("id", is_string)
    ∷ ("orderReference", is_string)
    ∷ ("lineIndex", is_number)
    ∷ ("state", is_string)
    ∷ ("qualityState", is_string)
    ∷ ("revision", is_number)
    ∷ ("specification", is_object)
    ∷ ("checklist", is_array is_object)
    ∷ ("issues", is_array is_object)
    ∷ ("history", is_array is_object)
    ∷ ("demonstration", is_true)
    ∷ []

abbrev pub is_production_work : Shape
is_production_work = is_interface production_work_interface

abbrev pub production_queue_interface : List (String × Shape)
production_queue_interface =
    ("items", is_array is_production_work)
    ∷ ("page", is_number)
    ∷ ("pageSize", is_number)
    ∷ ("total", is_number)
    ∷ []

abbrev pub is_production_queue : Shape
is_production_queue = is_interface production_queue_interface
