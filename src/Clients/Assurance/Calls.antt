-- ===== src/Clients/Assurance/Calls.antt =====
-- `assuranceApi` of frontend/services/assurance-api.ts.
use sewn_covers.Prelude.{Bool, if◌then◌else◌, Option, none, some, [], ◌∷◌, ◌++◌}
use sewn_covers.Number.{Num}
use sewn_covers.Text.{Text, codes}
use sewn_covers.Value.{Value, undef, str, num, obj, field, end}
use sewn_covers.Number.{decimal}
use sewn_covers.Clients.Http.{HttpRequest, post, put}
use sewn_covers.Clients.Request.{Call, FailureWording}
use sewn_covers.Clients.Calling.{sending, reading}
use sewn_covers.Clients.Assurance.Tables.{
  read_acknowledgement, read_queue, read_work, read_packet, read_readiness,
}

abbrev pub assurance_wording : FailureWording
assurance_wording = record {
  network = codes "The service could not be reached. Try again.";
  timeout = codes "The request timed out. Try again.";
  unreadable = codes "The API returned an unreadable response.";
  malformed = codes "The API response was malformed.";
}

abbrev uncached : HttpRequest → HttpRequest
uncached http = record http { cache = some (codes "no-store") }

-- `request`
abbrev pub assurance_request : Call → Call
assurance_request call = record call { http = uncached call.http; wording = assurance_wording }

-- The id and the revision of the work item that a call is about.
pub record WorkItem : Type 0 where
  pub id : Text
  pub revision : Num

pub record ProductionQueueFilters : Type 0 where
  pub state : Option Text
  pub issue_state : Option Text
  pub search : Option Text

pub data AssuranceCall : Type 0 where
  acknowledge : (token document purpose : Text) → AssuranceCall
  production_queue : (token : Text) (filters : ProductionQueueFilters) → AssuranceCall
  work packet : (token id : Text) → AssuranceCall
  checklist : (token : Text) (item : WorkItem) (key status : Text) → AssuranceCall
  create_issue : (token : Text) (item : WorkItem) (code reason : Text) → AssuranceCall
  transition :
      (token : Text) (item : WorkItem) (target : Text) (reason : Option Text) → AssuranceCall
  quality : (token : Text) (item : WorkItem) (passed : Bool) (reason : Text) → AssuranceCall
  readiness : AssuranceCall

abbrev filtered_queue : ProductionQueueFilters → HttpRequest → HttpRequest
filtered_queue filters http = record http {
  query =
      (codes "page", some (codes "1"))
      ∷ (codes "pageSize", some (codes "20"))
      ∷ (codes "state", filters.state)
      ∷ (codes "issueState", filters.issue_state)
      ∷ (codes "search", filters.search)
      ∷ [];
}

abbrev queue_call : ProductionQueueFilters → Call → Call
queue_call filters call = record call { http = filtered_queue filters call.http }

abbrev text_or_undefined : Option Text → Value
text_or_undefined (some s) = str s
text_or_undefined none = undef

-- `reason ? "manual_review" : undefined`
abbrev reason_code : Option Text → Value
reason_code none = undef
reason_code (some []) = undef
reason_code (some (_ ∷ _)) = str (codes "manual_review")

module _ (encode : Text → Text) where
  abbrev pub work_path : Text → Text
  work_path id = codes "admin/production-work/" ++ encode id

  unfoldable pub assurance_call : AssuranceCall → Call
  unfolding decimal
  assurance_call (acknowledge token document purpose) = assurance_request (
      sending post (some token) (codes "account/acknowledgements")
        (obj (
          field "documentType" (str document)
            (field "documentVersion" (num (decimal 1 0)) (field "purpose" (str purpose) end))))
        read_acknowledgement)
  assurance_call (production_queue token filters) =
      assurance_request
        (queue_call filters (reading (some token) (codes "admin/production-work") read_queue))
  assurance_call (work token id) = assurance_request (reading (some token) (work_path id) read_work)
  assurance_call (checklist token item key status) = assurance_request (
      sending put (some token) (work_path item.id ++ codes "/checklist/" ++ encode key)
        (obj (field "status" (str status) (field "expectedRevision" (num item.revision) end)))
        read_work)
  assurance_call (create_issue token item code reason) = assurance_request (
      sending post (some token) (work_path item.id ++ codes "/issues")
        (obj (
          field "code" (str code)
            (field "reason" (str reason) (field "expectedRevision" (num item.revision) end))))
        read_work)
  assurance_call (transition token item target reason) = assurance_request (
      sending post (some token) (work_path item.id ++ codes "/transition")
        (obj (
          field "targetState" (str target) (
            field "expectedRevision" (num item.revision) (
              field "reasonCode" (reason_code reason)
                (field "reason" (text_or_undefined reason) end)))))
        read_work)
  assurance_call (quality token item passed reason) = assurance_request (
      sending post (some token)
        (work_path item.id ++ codes "/quality/" ++ (if passed then codes "pass" else codes "fail"))
        (obj (
          field "code" (str (if passed then codes "manual_review" else codes "quality_failure"))
            (field "reason" (str reason) (field "expectedRevision" (num item.revision) end))))
        read_work)
  assurance_call (packet token id) =
      assurance_request
        (sending post (some token) (work_path id ++ codes "/packet") undef read_packet)
  assurance_call readiness = assurance_request (reading none (codes "readiness") read_readiness)
