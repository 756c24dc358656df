-- ===== src/ApiClient/Types.antt =====
-- The errors and the statuses of a request, and the texts that go with them.
use sewn_covers.Prelude.{◌+◌, ◌++◌, ◌∷◌, ℕ, ◌==◌, if◌then◌else◌, Option, none, some, List}
use sewn_covers.Text.{Text, codes}
use sewn_covers.Value.{Items}

pub data ApiErrorCategory : Type 0 where
  backend_contract configuration http malformed_response network timeout : ApiErrorCategory

pub record ApiErrorDetail : Type 0 where
  pub code : Text
  pub message : Text
  pub location : Items

pub record ApiErrorResponse : Type 0 where
  pub errors : List ApiErrorDetail
  pub request_id : Option Text

-- An `ApiClientError`; its own message is for developers and is left out.
pub record ApiClientError : Type 0 where
  pub category : ApiErrorCategory
  pub errors : List ApiErrorDetail
  pub status : Option ℕ
  pub request_id : Option Text

-- The two statuses of waiting and the one of success have fixed messages; the one of a retry has its
-- number.
pub data ApiRequestStatus : Type 0 where
  connecting cold_start connected : ApiRequestStatus
  retrying : ℕ → ApiRequestStatus
  failure : ApiErrorCategory → Text → ApiRequestStatus

abbrev pub connecting_message : Text
connecting_message = codes "Connecting to SewnCovers…"

abbrev pub cold_start_message : Text
cold_start_message = codes "The SewnCovers API may be waking up. This can take up to a minute."

-- The message of a retry. The limit is two, so its number is a digit.
abbrev pub retrying_message : ℕ → Text
retrying_message retry =
    codes "The SewnCovers API may be waking up. Retrying (" ++ ((b'0' + retry) ∷ codes " of 2)…")

abbrev pub connected_message : Text
connected_message = codes "SewnCovers is connected."

-- `status.message`
abbrev pub status_message : ApiRequestStatus → Text
status_message connecting = connecting_message
status_message cold_start = cold_start_message
status_message connected = connected_message
status_message (retrying retry) = retrying_message retry
status_message (failure category message) = message

abbrev pub contract_failure_message : Option ℕ → Text
contract_failure_message (some status) =
    if status == 422
    then codes "The API rejected the request. Review the affected fields and try again."
    else if status == 429
    then codes "Too many designs were saved from your network. Wait a few minutes, then try again."
    else if status == 413
    then codes "The request was larger than the SewnCovers service accepts."
    else codes "The SewnCovers service could not complete the request. Please try again."
contract_failure_message none =
    codes "The SewnCovers service could not complete the request. Please try again."

abbrev pub category_failure_message : ApiErrorCategory → Option ℕ → Text
category_failure_message configuration status =
    codes "The public API URL is not configured. Set NEXT_PUBLIC_API_URL and rebuild the frontend."
category_failure_message timeout status =
    codes "The SewnCovers API did not respond in time. Please try again."
category_failure_message network status =
    codes "The SewnCovers API could not be reached. Check your connection and try again."
category_failure_message backend_contract status = contract_failure_message status
category_failure_message http status =
    codes "The SewnCovers API returned an unexpected HTTP response. Please try again."
category_failure_message malformed_response status =
    codes "The SewnCovers API returned an unreadable response. Please try again."

abbrev pub status_failure_message : ApiClientError → Text
status_failure_message e = category_failure_message e.category e.status
