-- ===== src/Clients/Request.antt =====
-- `accountRequest` of frontend/services/account-api.ts, the request path of the account, commerce and
-- assurance clients, and its errors.
use sewn_covers.Prelude.{
  ℕ, String, Bool, true, false, not, ◌&&◌, ◌==◌, if◌then◌else◌, Option, none, some, or_else, ◌≡◌,
}
use sewn_covers.Text.{Text, codes, text_eq}
use sewn_covers.Value.{
  Value, undef, null, flag, num, str, arr, obj, Items, nil, cons, Fields, lookup, as_record, Reader,
  ◌>>=◌,
}
use sewn_covers.Clients.Http.{
  HttpRequest, HttpResponse, TransportFailure, aborted, configuration, network, timeout, Transport,
  answered, refused, thrown, is_truthy, retry_after_seconds,
}
use sewn_covers.Clients.Session.{Tab, clear_stored_token}
pub mod Cases

pub record AccountApiError : Type 0 where
  pub message : Text
  pub status : ℕ
  pub code : Text
  pub retry_after_seconds : Option ℕ
  pub request_id : Option Text

-- An error with no details.
abbrev pub plain_error : Text → ℕ → Text → AccountApiError
plain_error message status code = record {
  message = message;
  status = status;
  code = code;
  retry_after_seconds = none;
  request_id = none;
}

pub record FailureWording : Type 0 where
  pub network : Text
  pub timeout : Text
  pub unreadable : Text
  pub malformed : Text

abbrev pub account_wording : FailureWording
account_wording = record {
  network = codes "The service could not be reached. Try again.";
  timeout = codes "The request timed out. Try again.";
  unreadable = codes "The API returned an unreadable response.";
  malformed = codes "The API response did not match its documented format.";
}

-- A request with the options that say how its answer is read.
pub record Call : Type 0 where
  pub http : HttpRequest
  pub parser : Option Reader
  pub empty : Bool
  pub wording : FailureWording

-- The promise is fulfilled, or rejected with an `AccountApiError` or with another error.
pub data AccountOutcome : Type 0 where
  returned : Value → AccountOutcome
  rejected : AccountApiError → AccountOutcome
  raised : AccountOutcome

-- `describeError`
abbrev pub describe_error : Option AccountApiError → Text → Text
describe_error (some e) fallback = e.message
describe_error none fallback = fallback

abbrev pub transport_failure : TransportFailure → FailureWording → AccountApiError
transport_failure configuration wording =
    plain_error (codes "The public API URL is not configured.") 0 (codes "request_failed")
transport_failure aborted wording =
    plain_error (codes "The request was cancelled.") 0 (codes "aborted")
transport_failure timeout wording = plain_error wording.timeout 0 (codes "timeout")
transport_failure network wording = plain_error wording.network 0 (codes "network_error")

abbrev pub as_string : Value → Option Text
as_string (str s) = some s
as_string _ = none

abbrev first_record : Value → Option Fields
first_record (arr (cons v vs)) = as_record v
first_record _ = none

-- The first of the errors that a failed answer lists.
unfoldable pub listed_error : HttpResponse → Option Fields
unfolding as_record lookup
listed_error r =
    if r.is_ok then none else do fs ← as_record r.body; first_record (lookup "errors" fs)

abbrev pub string_field : Option Fields → String → Option Text
string_field none key = none
string_field (some fs) key = as_string (lookup key fs)

abbrev pub request_failed : Text
request_failed = codes "request_failed"

abbrev pub authentication_failed : Text
authentication_failed = codes "authentication_failed"

unfoldable pub error_code : HttpResponse → Text
unfolding listed_error lookup
error_code r = or_else (string_field (listed_error r) "code") request_failed

unfoldable pub ends_session : Call → HttpResponse → Bool
unfolding error_code text_eq
ends_session call r =
    r.status == 401
    && is_truthy call.http.token
    && not (text_eq (error_code r) authentication_failed)

unfoldable pub answer_error : HttpResponse → AccountApiError
unfolding listed_error lookup error_code retry_after_seconds as_record
answer_error r = record {
  message =
      or_else (string_field (listed_error r) "message")
        (codes "The request could not be completed.");
  status = r.status;
  code = error_code r;
  retry_after_seconds = retry_after_seconds r.headers;
  request_id = string_field (as_record r.body) "requestId";
}

unfoldable pub unreadable_error : Call → HttpResponse → AccountApiError
unreadable_error call r = plain_error call.wording.unreadable r.status (codes "unreadable_response")

unfoldable pub malformed_error : Call → HttpResponse → AccountApiError
malformed_error call r = plain_error call.wording.malformed r.status (codes "malformed_response")

abbrev pub parsed : Call → Value → Option Value
parsed call body = do read ← call.parser; read body

abbrev pub parsed_or : Option Value → AccountApiError → AccountOutcome
parsed_or none e = rejected e
parsed_or (some v) e = returned v

unfoldable pub read_answer : Call → HttpResponse → AccountOutcome
unfolding answer_error malformed_error
read_answer call r =
    if not r.is_ok
    then rejected (answer_error r)
    else if call.empty
    then returned undef
    else parsed_or (parsed call r.body) (malformed_error call r)

unfoldable pub account_request : Call → Transport → Tab → AccountOutcome × Tab
unfolding ends_session clear_stored_token unreadable_error read_answer
account_request call thrown t = (raised, t)
account_request call (refused failure) t = (rejected (transport_failure failure call.wording), t)
account_request call (answered r) t =
    if r.is_unreadable
    then (rejected (unreadable_error call r), t)
    else (read_answer call r, if ends_session call r then clear_stored_token t else t)
