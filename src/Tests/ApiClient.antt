-- ===== src/Tests/ApiClient.antt =====
-- Requests: frontend/services/api-client.ts.
use sewn_covers.Prelude.{ℕ, zero, suc, true, false, [], ◌∷◌, ◌≡◌, refl}
use sewn_covers.Value.{null, flag, obj, end, field, lookup, as_record}
use sewn_covers.ApiClient.{
  SendOutcome, responded, timed_out, received, connecting, cold_start, connected, retrying, post,
  request, perform_attempt, should_retry, attempts_from, api_retry_limit, get_upload_availability,
  cold_start_statuses,
}
use sewn_covers.ApiClient.Policy.{IsPolicy, request-IsPolicy, request-post}
use sewn_covers.Design.{create_design}

-- A service that wakes up: a timeout, a 503, then an answer.
abbrev waking : ℕ → SendOutcome
waking zero = timed_out
waking (suc zero) = responded 503 null
waking _ = responded 200 (obj (field "enabled" (flag true) end))

waking_run : request get_upload_availability waking true ≡ record {
  statuses = connecting ∷ cold_start ∷ retrying 1 ∷ retrying 2 ∷ connected ∷ [];
  attempts = 3;
  outcome = received (record { enabled = true });
}
unfolding request attempts_from perform_attempt should_retry api_retry_limit get_upload_availability
    lookup as_record
waking_run = refl

request-IsPolicy_example :
    IsPolicy get_upload_availability waking 2 0
      (connecting ∷ cold_start_statuses true)
      (request get_upload_availability waking true)
request-IsPolicy_example = request-IsPolicy get_upload_availability waking true

sends_post : create_design.method ≡ post
unfolding create_design
sends_post = refl

request-post_example :
    ((request create_design waking false).attempts ≡ 1)
    × ((request create_design waking false).outcome ≡ perform_attempt create_design (waking 0))
request-post_example = request-post create_design waking false sends_post
