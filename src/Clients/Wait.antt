-- ===== src/Clients/Wait.antt =====
-- `waitPhrase` of frontend/services/account-api.ts, on a whole number of seconds, and
-- `signInErrorMessage` of frontend/services/auth-errors.ts.
use sewn_covers.Prelude.{
  ℕ, ◌+◌, ◌*◌, ◌/◌, ◌≤◌, ◌<◌, Bool, ◌||◌, ◌==◌, leb, ltb, leb→le, if◌then◌else◌, Option, none, some,
  List, [], ◌∷◌, ◌++◌, any, ◌≡◌, refl, arith, Bool-cases, inl, inr,
}
use sewn_covers.Text.{Text, codes, text_eq}
use sewn_covers.Text.Naturals.{natural_text}
use sewn_covers.Clients.Request.{AccountApiError}

pub data Wait : Type 0 where
  a_few_seconds : Wait
  some_seconds some_minutes some_hours : ℕ → Wait

-- `Math.ceil(n / 60)`
abbrev pub sixtieths : ℕ → ℕ
sixtieths n = (n + 59) / 60

unfoldable pub wait_of : ℕ → Wait
wait_of seconds =
    if ltb seconds 60
    then if leb seconds 5 then a_few_seconds else some_seconds seconds
    else if ltb (sixtieths seconds) 60
    then some_minutes (sixtieths seconds)
    else some_hours (sixtieths (sixtieths seconds))

abbrev counted : ℕ → Text → Text → Text
counted n one many = if n == 1 then one else natural_text n ++ many

abbrev phrase : Wait → Text
phrase a_few_seconds = codes "a few seconds"
phrase (some_seconds n) = natural_text n ++ codes " seconds"
phrase (some_minutes n) = counted n (codes "1 minute") (codes " minutes")
phrase (some_hours n) = counted n (codes "1 hour") (codes " hours")

unfoldable pub wait_phrase : ℕ → Text
unfolding wait_of natural_text
wait_phrase seconds = phrase (wait_of seconds)

-- The seconds that a phrase names, and the unit that it counts in.
abbrev pub seconds_of : Wait → ℕ
seconds_of a_few_seconds = 5
seconds_of (some_seconds n) = n
seconds_of (some_minutes n) = n * 60
seconds_of (some_hours n) = n * 3600

abbrev pub unit_of : Wait → ℕ
unit_of a_few_seconds = 6
unit_of (some_seconds n) = 1
unit_of (some_minutes n) = 60
unit_of (some_hours n) = 3600

-- A wait is never told shorter than it is, and longer by less than the unit that it is told in.
pub wait_of_bounds :
    (n : ℕ) → (n ≤ seconds_of (wait_of n)) × (seconds_of (wait_of n) < n + unit_of (wait_of n))
unfolding wait_of
wait_of_bounds n = elim (Bool-cases (ltb n 60)) [
  | inl short ↦ elim (Bool-cases (leb n 5)) [
    | inl few ↦ rw (short, few) (leb→le n 5 few, omega arith)
    | inr more ↦ rw (short, more) (omega arith, omega arith)
  ]
  | inr long ↦ elim (Bool-cases (ltb (sixtieths n) 60)) [
    | inl minutes ↦ rw (long, minutes) (omega arith, omega arith)
    | inr hours ↦ rw (long, hours) (omega arith, omega arith)
  ]
]

pub data SignInMode : Type 0 where
  login register : SignInMode

abbrev unexpected : Text
unexpected = codes "Something unexpected went wrong. Try again in a moment."

abbrev unavailable : Text
unavailable =
    codes
      "The SewnCovers service may be waking up or temporarily unavailable. Wait a moment and try again."

abbrev rejected_message : SignInMode → Text
rejected_message register =
    codes
      "We couldn't create an account with those details. If you already have one, sign in instead."
rejected_message login =
    codes "That email and passphrase don't match an account. Check them and try again."

abbrev limited_message : Option ℕ → Text
limited_message none = codes "Too many attempts. Wait a few minutes before trying again."
limited_message (some seconds) =
    codes "Too many attempts. Try again in " ++ wait_phrase seconds ++ codes "."

abbrev is_status : List ℕ → ℕ → Bool
is_status statuses status = any (λ s. s == status) statuses

abbrev status_error_message : AccountApiError → SignInMode → Text
status_error_message e mode =
    if e.status == 401
    then rejected_message mode
    else if e.status == 404
    then codes
        "Accounts aren't available on the SewnCovers service right now. Your design is untouched, so you can keep going as a guest and try again later."
    else if e.status == 409
    then codes "That email address is already in use. Sign in instead."
    else if is_status (400 ∷ 413 ∷ 422 ∷ []) e.status
    then codes "Check your email address and passphrase (12–128 characters), then try again."
    else if e.status == 429
    then limited_message e.retry_after_seconds
    else if e.status == 503
    then (if text_eq e.code (codes "service_busy")
        then codes "The SewnCovers service is busy right now. Wait a few seconds and try again."
        else unavailable)
    else if is_status (408 ∷ 502 ∷ 504 ∷ []) e.status
    then unavailable
    else unexpected

-- `signInErrorMessage`; an error of another class is `none`.
unfoldable pub sign_in_error_message : Option AccountApiError → SignInMode → Text
unfolding text_eq
sign_in_error_message none mode = unexpected
sign_in_error_message (some e) mode =
    if text_eq e.code (codes "acknowledgement_failed")
    then codes
        "Your account was created, but the terms acknowledgement could not be saved. Sign in with the same email and passphrase to continue."
    else if text_eq e.code (codes "network_error") || text_eq e.code (codes "timeout")
    then unavailable
    else status_error_message e mode

-- The message depends on the status, the code and the wait of an error alone: the text that the
-- service wrote does not reach the page.
pub sign_in_error_message-silent :
    (message message' : Text) (status : ℕ) (code : Text) (wait : Option ℕ)
    (request request' : Option Text) (mode : SignInMode)
    → sign_in_error_message
        (some (record {
          message = message;
          status = status;
          code = code;
          retry_after_seconds = wait;
          request_id = request;
        }))
        mode
      ≡ sign_in_error_message
          (some (record {
            message = message';
            status = status;
            code = code;
            retry_after_seconds = wait;
            request_id = request';
          }))
          mode
unfolding sign_in_error_message
sign_in_error_message-silent message message' status code wait request request' mode = refl
