-- ===== src/Tests/Clients.antt =====
-- The clients: frontend/services/http.ts, account-api.ts, commerce-api.ts, assurance-api.ts and
-- auth-errors.ts, and frontend/data/carriers.ts.
use sewn_covers.Prelude.{◌≤◌, ◌<◌, ◌+◌, true, false, none, some, [], ◌≡◌, ◌⊎◌, ◌↔◌, refl}
use sewn_covers.Number.{Num}
use sewn_covers.Text.{Text, codes, trim, starts_with, text_eq}
use sewn_covers.Text.Patterns.{is_digit}
use sewn_covers.Text.Naturals.{natural_text, digits, natural_value}
use sewn_covers.Value.{undef, str, arr, obj, nil, cons, field, end, lookup, as_record}
use sewn_covers.Clients.{
  HttpResponse, answered, retry_after_seconds, Tab, open_storage, read_session_token,
  store_session_token, remove_session_token, stored, is_session_token, Call, returned,
  account_request, ends_session, error_code, listed_error, read_answer, clear_stored_token,
}
use sewn_covers.Clients.Session.{store_session_token-read}
use sewn_covers.Clients.Request.Cases.{
  IsEnded, IsAccepted, account_request-session, account_request-returned,
}
use sewn_covers.Clients.RetryAfter.{retry_after_seconds_bounds}
use sewn_covers.Clients.Wait.{
  wait_of, seconds_of, unit_of, wait_of_bounds, wait_phrase, login, sign_in_error_message,
  sign_in_error_message-silent,
}
use sewn_covers.Clients.Account.{logout, account_call}
use sewn_covers.Clients.Api.{account, client_call, client_result, client_call-typed}
use sewn_covers.Clients.Commerce.Carriers.{
  safe_tracking_url, IsAmong, carriers, safe_tracking_url-IsAmong,
}

abbrev token : Text
token = codes "abcdefghijklmnopqrstuvwxyzABCDEFGHIJKLMNOPQ"

abbrev tab : Tab
tab = record { has_window = true; storage = open_storage false none; changes = 0 }

abbrev signed_in : Tab
signed_in = record { has_window = true; storage = open_storage false (some token); changes = 1 }

signed_in_run : store_session_token token tab ≡ stored signed_in
unfolding store_session_token is_session_token
signed_in_run = refl

store_session_token-read_example :
    (read_session_token signed_in ≡ some token)
    × (read_session_token (remove_session_token signed_in) ≡ none)
    × ((remove_session_token signed_in).changes ≡ 2)
store_session_token-read_example = store_session_token-read token tab signed_in signed_in_run

-- An expired session: the answer to a sign-out is a 401.
abbrev kept : Text → Text
kept s = s

abbrev printed : Num → Text
printed n = codes "7"

abbrev expired : HttpResponse
expired = record {
  status = 401;
  is_ok = false;
  headers = λ name. none;
  body = obj (
      field "errors" (arr (cons (obj (field "code" (str (codes "session_expired")) end)) nil)) end);
  is_unreadable = false;
}

abbrev signing_out : Call
signing_out = client_call kept printed (account (logout token))

account_request-session_example :
    ((account_request signing_out (answered expired) signed_in).1 ≡ signed_in)
    ⊎ IsEnded signing_out signed_in (account_request signing_out (answered expired) signed_in)
account_request-session_example =
    account_request-session signing_out (answered expired) signed_in refl

signing_out_run :
    (account_request signing_out (answered expired) signed_in).1 ≡ clear_stored_token signed_in
unfolding account_request client_call account_call ends_session error_code listed_error lookup
    as_record text_eq
signing_out_run = refl

-- A sign-out that the service accepts, with no body.
abbrev done : HttpResponse
done = record {
  status = 204;
  is_ok = true;
  headers = λ name. none;
  body = undef;
  is_unreadable = false;
}

account_request-returned_example :
    ((account_request signing_out (answered done) signed_in).0 ≡ returned undef)
    ↔ IsAccepted signing_out (answered done) undef
account_request-returned_example =
    account_request-returned signing_out (answered done) signed_in undef

done_run : (account_request signing_out (answered done) signed_in).0 ≡ returned undef
unfolding account_request client_call account_call read_answer
done_run = refl

client_call-typed_example : client_result (account (logout token)) undef ≡ true
client_call-typed_example =
    client_call-typed kept printed (account (logout token)) (answered done) signed_in undef done_run

-- A wait of 90 seconds.
ninety : retry_after_seconds (λ name. some (codes " 90 ")) ≡ some 90
unfolding retry_after_seconds trim is_digit natural_value
ninety = refl

retry_after_seconds_bounds_example : (0 < 90) × (90 < 1000000)
retry_after_seconds_bounds_example =
    retry_after_seconds_bounds (λ name. some (codes " 90 ")) 90 ninety

wait_of_bounds_example :
    (3601 ≤ seconds_of (wait_of 3601)) × (seconds_of (wait_of 3601) < 3601 + unit_of (wait_of 3601))
wait_of_bounds_example = wait_of_bounds 3601

wait_phrase_runs :
    (wait_phrase 3 ≡ codes "a few seconds")
    × (wait_phrase 59 ≡ codes "59 seconds")
    × (wait_phrase 61 ≡ codes "2 minutes")
    × (wait_phrase 3601 ≡ codes "2 hours")
unfolding wait_phrase wait_of natural_text digits
wait_phrase_runs = (refl, refl, refl, refl)

sign_in_error_message-silent_example :
    sign_in_error_message
      (some (record {
        message = codes "Resource not found.";
        status = 404;
        code = codes "not_found";
        retry_after_seconds = none;
        request_id = none;
      }))
      login
    ≡ sign_in_error_message
        (some (record {
          message = [];
          status = 404;
          code = codes "not_found";
          retry_after_seconds = none;
          request_id = some (codes "r1");
        }))
        login
sign_in_error_message-silent_example =
    sign_in_error_message-silent (codes "Resource not found.") [] 404 (codes "not_found") none none
      (some (codes "r1")) login

abbrev tracking : Text
tracking = codes "https://www.ups.com/track"

safe_tracking_url-IsAmong_example :
    (safe_tracking_url (some tracking) ≡ some tracking)
    ↔ ((tracking ≡ tracking) × IsAmong tracking carriers)
safe_tracking_url-IsAmong_example = safe_tracking_url-IsAmong tracking tracking

safe_tracking_url_runs :
    (safe_tracking_url (some tracking) ≡ some tracking)
    × (safe_tracking_url (some (codes "https://www.ups.com.example/track")) ≡ none)
    × (safe_tracking_url (some []) ≡ none)
unfolding safe_tracking_url starts_with
safe_tracking_url_runs = (refl, refl, refl)
