-- ===== src/Clients/Assurance/Stable.antt =====
-- Every reader of frontend/services/assurance-api.ts accepts what it returns.
use sewn_covers.Value.Laws.{IsStable, record_of-IsStable, list_of-IsStable}
use sewn_covers.Value.Stable.{stability}
use sewn_covers.Clients.Assurance.Tables.{
  record_list, read_work, read_queue, read_acknowledgement, read_packet, read_readiness_check,
  read_readiness,
}

pub record_list-IsStable : IsStable record_list
record_list-IsStable = list_of-IsStable _ (search stability)

pub read_work-IsStable : IsStable read_work
read_work-IsStable =
    record_of-IsStable _ (search (stability, record_list-IsStable)) (search stability)

pub read_queue-IsStable : IsStable read_queue
read_queue-IsStable =
    record_of-IsStable _ (search (stability, read_work-IsStable)) (search stability)

pub read_acknowledgement-IsStable : IsStable read_acknowledgement
read_acknowledgement-IsStable = record_of-IsStable _ (search stability) (search stability)

pub read_packet-IsStable : IsStable read_packet
read_packet-IsStable = record_of-IsStable _ (search stability) (search stability)

pub read_readiness_check-IsStable : IsStable read_readiness_check
read_readiness_check-IsStable = record_of-IsStable _ (search stability) (search stability)

pub read_readiness-IsStable : IsStable read_readiness
read_readiness-IsStable =
    record_of-IsStable _ (search (stability, read_readiness_check-IsStable)) (search stability)
