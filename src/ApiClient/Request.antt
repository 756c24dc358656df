-- ===== src/ApiClient/Request.antt =====
-- `performAttempt`, `shouldRetry` and `request`. What the transport (`send` of
-- frontend/services/http.ts) does at each attempt is an argument.
use sewn_covers.Prelude.{
  ℕ, zero, suc, Bool, true, false, ◌||◌, leb, ltb, ◌==◌, if◌then◌else◌, Option, none, some, List,
  [], ◌∷◌, ◌++◌, any,
}
use sewn_covers.Value.{Value}
use sewn_covers.ApiClient.Types.{
  ApiErrorCategory, backend_contract, configuration, http, malformed_response, network, timeout,
  ApiErrorResponse, ApiClientError, ApiRequestStatus, connecting, cold_start, connected, retrying,
  failure, status_failure_message,
}
use sewn_covers.ApiClient.Errors.{parse_api_error_response}

pub data Method : Type 0 where
  get post : Method

-- A response, a `TransportError` of one of its kinds, or any other error.
pub data SendOutcome : Type 0 where
  responded : (status : ℕ) (body : Value) → SendOutcome
  unconfigured timed_out unreachable : SendOutcome

unfoldable pub api_retry_limit : ℕ
api_retry_limit = 2

abbrev pub transient_http_statuses : List ℕ
transient_http_statuses = 408 ∷ 425 ∷ 429 ∷ 500 ∷ 502 ∷ 503 ∷ 504 ∷ []

abbrev pub plain_error : ApiErrorCategory → Option ℕ → ApiClientError
plain_error category status = record {
  category = category;
  errors = [];
  status = status;
  request_id = none;
}

-- The error of a status outside 200 to 299.
abbrev pub status_error : ℕ → Option ApiErrorResponse → ApiClientError
status_error status none = plain_error http (some status)
status_error status (some envelope) = record {
  category = backend_contract;
  errors = envelope.errors;
  status = some status;
  request_id = envelope.request_id;
}

pub data Outcome (Body : Type 0) : Type 0 where
  received : Body → Outcome Body
  failed : ApiClientError → Outcome Body

pub record RequestDefinition (Body : Type 0) : Type 0 where
  pub method : Method
  pub expected_statuses : List ℕ
  pub parse : Value → Option Body

abbrev pub is_transient : Option ℕ → Bool
is_transient none = false
is_transient (some status) = any (λ s. s == status) transient_http_statuses

abbrev pub is_retryable : ApiErrorCategory → Option ℕ → Bool
is_retryable network status = true
is_retryable timeout status = true
is_retryable http status = is_transient status
is_retryable backend_contract status = is_transient status
is_retryable configuration status = false
is_retryable malformed_response status = false

unfoldable pub should_retry : Method → ApiClientError → Bool
should_retry post e = false
should_retry get e = is_retryable e.category e.status

-- The statuses that were emitted, the number of attempts, and how the promise settled.
pub record Run (Body : Type 0) : Type 0 where
  pub statuses : List ApiRequestStatus
  pub attempts : ℕ
  pub outcome : Outcome Body

-- The timer runs out during the first attempt, or it is cleared.
abbrev pub cold_start_statuses : Bool → List ApiRequestStatus
cold_start_statuses true = cold_start ∷ []
cold_start_statuses false = []

module _ {Body : Type 0} where
  abbrev pub is_expected : RequestDefinition Body → ℕ → Bool
  is_expected definition status = any (λ s. s == status) definition.expected_statuses

  -- What is thrown for a response that was not read.
  unfoldable pub response_error : RequestDefinition Body → ℕ → Value → ApiClientError
  unfolding parse_api_error_response
  response_error definition status body =
      if ltb status 200 || leb 300 status
      then status_error status (parse_api_error_response body)
      else if is_expected definition status
      then plain_error malformed_response (some status)
      else plain_error http (some status)

  abbrev pub or_failed : ApiClientError → Option Body → Outcome Body
  or_failed e none = failed e
  or_failed e (some body) = received body

  unfoldable pub perform_attempt : RequestDefinition Body → SendOutcome → Outcome Body
  unfolding response_error
  perform_attempt definition unconfigured = failed (plain_error configuration none)
  perform_attempt definition timed_out = failed (plain_error timeout none)
  perform_attempt definition unreachable = failed (plain_error network none)
  perform_attempt definition (responded status body) =
      or_failed (response_error definition status body)
        (if is_expected definition status then definition.parse body else none)

  -- The status that ends a request.
  abbrev pub final_status : Outcome Body → ApiRequestStatus
  final_status (received body) = connected
  final_status (failed e) = failure e.category (status_failure_message e)

  abbrev pub ended : Outcome Body → Run Body
  ended outcome = record { statuses = final_status outcome ∷ []; attempts = 1; outcome = outcome }

  -- One more attempt and one more status in front.
  abbrev pub after_retry : ℕ → Run Body → Run Body
  after_retry retry run = record {
    statuses = retrying retry ∷ run.statuses;
    attempts = suc run.attempts;
    outcome = run.outcome;
  }

  abbrev pub retry_or_end : Method → Outcome Body → ℕ → Run Body → Run Body
  retry_or_end method (received body) retry next = ended (received body)
  retry_or_end method (failed e) retry next =
      if should_retry method e then after_retry (suc retry) next else ended (failed e)

  -- The loop from the attempt number `retry` on, with `left` retries left.
  unfoldable pub attempts_from : RequestDefinition Body → (ℕ → SendOutcome) → ℕ → ℕ → Run Body
  unfolding perform_attempt should_retry
  attempts_from definition send zero retry = ended (perform_attempt definition (send retry))
  attempts_from definition send (suc left) retry =
      let next = attempts_from definition send left (suc retry) in
      retry_or_end definition.method (perform_attempt definition (send retry)) retry next

  unfoldable pub request : RequestDefinition Body → (ℕ → SendOutcome) → Bool → Run Body
  unfolding attempts_from api_retry_limit
  request definition send slow =
      let run = attempts_from definition send api_retry_limit 0 in
      record run { statuses = connecting ∷ (cold_start_statuses slow ++ run.statuses) }
