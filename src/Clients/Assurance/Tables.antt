-- ===== src/Clients/Assurance/Tables.antt =====
-- The readers of frontend/services/assurance-api.ts.
use sewn_covers.Prelude.{true, List, [], ◌∷◌}
use sewn_covers.Text.{Text, codes}
use sewn_covers.Value.{
  Reader, text, boolean, numeric, any_record, literal_flag, known_or_unknown, record_of, list_of,
}

abbrev pub readiness_levels : List Text
readiness_levels = codes "error" ∷ codes "warning" ∷ codes "information" ∷ []

abbrev pub record_list : Reader
record_list = list_of any_record

abbrev pub read_work : Reader
read_work = record_of (
    ("id", text)
    ∷ ("orderReference", text)
    ∷ ("lineIndex", numeric)
    ∷ ("state", text)
    ∷ ("qualityState", text)
    ∷ ("revision", numeric)
    ∷ ("specification", any_record)
    ∷ ("checklist", record_list)
    ∷ ("issues", record_list)
    ∷ ("history", record_list)
    ∷ ("demonstration", literal_flag true)
    ∷ [])

abbrev pub read_queue : Reader
read_queue = record_of (
    ("items", list_of read_work)
    ∷ ("page", numeric)
    ∷ ("pageSize", numeric)
    ∷ ("total", numeric)
    ∷ [])

abbrev pub read_acknowledgement : Reader
read_acknowledgement = record_of (
    ("id", numeric)
    ∷ ("documentType", text)
    ∷ ("documentVersion", numeric)
    ∷ ("purpose", text)
    ∷ ("acknowledgedAt", text)
    ∷ [])

abbrev pub read_packet : Reader
read_packet = record_of (("content", text) ∷ ("checksum", text) ∷ ("generatedAt", text) ∷ [])

abbrev pub read_readiness_check : Reader
read_readiness_check =
    record_of
      (("code", text) ∷ ("level", known_or_unknown readiness_levels) ∷ ("message", text) ∷ [])

abbrev pub read_readiness : Reader
read_readiness =
    record_of
      (("ready", boolean) ∷ ("checks", list_of read_readiness_check) ∷ ("disclaimer", text) ∷ [])
