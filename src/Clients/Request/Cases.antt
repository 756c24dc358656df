-- ===== src/Clients/Request/Cases.antt =====
-- What a request does to the session, and when it returns.
use sewn_covers.Prelude.{
  Bool, true, false, not, ◌&&◌, ◌==◌, leb, ==→eq, Option, none, some, ◌≡◌, ◌≢◌, ◌⊎◌, ◌↔◌, inl, inr,
  refl, ◌∙◌, ap, arith, Bool-cases, and-left, and-right,
}
use sewn_covers.Text.{Text, text_eq, text_eq_refl}
use sewn_covers.Value.{Value, undef}
use sewn_covers.Clients.Http.{HttpResponse, Transport, answered, refused, thrown, is_truthy}
use sewn_covers.Clients.Session.{Tab, clear_stored_token}
use sewn_covers.Clients.Request.{
  Call, AccountApiError, AccountOutcome, returned, rejected, authentication_failed, error_code,
  ends_session, answer_error, parsed, parsed_or, malformed_error, read_answer, account_request,
}

-- `ok` of a response: a status of 200 to 299.
abbrev pub IsFetched : Transport → Type 0
IsFetched (answered r) = r.is_ok ≡ (leb 200 r.status && leb r.status 299)
IsFetched _ = Unit {0}

-- The session was ended: the request sent a token, and its answer was a 401 that is no wrong
-- passphrase, which the caller is told.
pub record IsEnded (call : Call) (t : Tab) (result : AccountOutcome × Tab) : Type 0 where
  pub error : AccountApiError
  pub told : result.0 ≡ rejected error
  pub cleared : result.1 ≡ clear_stored_token t
  pub unauthorized : error.status ≡ 401
  pub invalid : error.code ≢ authentication_failed
  pub authenticated : is_truthy call.http.token ≡ true

unauthorized-IsFailed :
    (r : HttpResponse) → IsFetched (answered r) → r.status ≡ 401 → r.is_ok ≡ false
unauthorized-IsFailed r h e = h ∙ ap (λ n. leb 200 n && leb n 299) e

not-true : (b : Bool) → not b ≡ true → b ≡ false
not-true true h = cc
not-true false h = refl

text_eq-other : (s u : Text) → text_eq s u ≡ false → s ≢ u
text_eq-other s u h e =
    let same : text_eq s u ≡ true = rw e (text_eq_refl u) in absurd (ground arith)

session-IsEnded :
    (call : Call) (r : HttpResponse) (t : Tab)
    → IsFetched (answered r)
    → r.is_unreadable ≡ false
    → ends_session call r ≡ true
    → IsEnded call t (account_request call (answered r) t)
unfolding account_request ends_session read_answer answer_error
session-IsEnded call r t fetched readable ends =
    let sent : (r.status == 401 && is_truthy call.http.token) ≡ true =
      and-left _ (not (text_eq (error_code r) authentication_failed)) ends in
    let status = ==→eq r.status 401 (and-left (r.status == 401) (is_truthy call.http.token) sent) in
    let failed = unauthorized-IsFailed r fetched status in
    let other = not-true _ (
      and-right (r.status == 401 && is_truthy call.http.token)
        (not (text_eq (error_code r) authentication_failed)) ends) in
    record {
      error = answer_error r;
      told = rw (readable, failed) refl;
      cleared = rw (readable, ends) refl;
      unauthorized = status;
      invalid = text_eq-other (error_code r) authentication_failed other;
      authenticated = and-right (r.status == 401) (is_truthy call.http.token) sent;
    }

-- A request leaves the stored session as it is, or its token was sent, the answer was a 401 that does
-- not say that a passphrase was wrong, and the caller is told; then the stored token is removed.
pub account_request-session :
    (call : Call) (result : Transport) (t : Tab)
    → IsFetched result
    → ((account_request call result t).1 ≡ t) ⊎ IsEnded call t (account_request call result t)
unfolding account_request
account_request-session call thrown t h = inl refl
account_request-session call (refused failure) t h = inl refl
account_request-session call (answered r) t h = elim (Bool-cases r.is_unreadable) [
  | inl unreadable ↦ inl (rw unreadable refl)
  | inr readable ↦ elim (Bool-cases (ends_session call r)) [
    | inl ends ↦ inr (session-IsEnded call r t h readable ends)
    | inr stays ↦ inl (rw (readable, stays) refl)
  ]
]

-- What an answer must be for the request to return the value: it is readable and `ok`, and the value
-- is `undefined` where no body is expected, and else what the parser made of the body.
abbrev pub IsAccepted : Call → Transport → Value → Type 0
IsAccepted call (answered r) v =
    (r.is_unreadable ≡ false)
    × (r.is_ok ≡ true)
    × (((call.empty ≡ true) × (undef ≡ v)) ⊎ ((call.empty ≡ false) × (parsed call r.body ≡ some v)))
IsAccepted call _ v = ⊥

parsed_or-returned :
    (o : Option Value) (e : AccountApiError) (v : Value) → parsed_or o e ≡ returned v → o ≡ some v
parsed_or-returned none e v h = cc
parsed_or-returned (some w) e v h = ground arith

read_answer-returned :
    (call : Call) (r : HttpResponse) (v : Value)
    → read_answer call r ≡ returned v
    → (r.is_ok ≡ true)
      × (((call.empty ≡ true) × (undef ≡ v))
          ⊎ ((call.empty ≡ false) × (parsed call r.body ≡ some v)))
unfolding read_answer
read_answer-returned call r v h = elim (Bool-cases r.is_ok) [
  | inr bad ↦ absurd (ground arith)
  | inl good ↦ elim (Bool-cases call.empty) [
    | inl empty ↦ (good, inl (empty, ground arith))
    | inr body ↦ (
      good,
      inr (body, parsed_or-returned (parsed call r.body) (malformed_error call r) v (ground arith)),
    )
  ]
]

returned-IsAccepted :
    (call : Call) (result : Transport) (t : Tab) (v : Value)
    → (account_request call result t).0 ≡ returned v
    → IsAccepted call result v
unfolding account_request
returned-IsAccepted call thrown t v h = cc
returned-IsAccepted call (refused failure) t v h = cc
returned-IsAccepted call (answered r) t v h = elim (Bool-cases r.is_unreadable) [
  | inl unreadable ↦ absurd (ground arith)
  | inr readable ↦
      let (good, accepted) = read_answer-returned call r v (ground arith) in
      (readable, good, accepted)
]

accepted-returned :
    (call : Call) (result : Transport) (t : Tab) (v : Value)
    → IsAccepted call result v
    → (account_request call result t).0 ≡ returned v
unfolding account_request read_answer
accepted-returned call (answered r) t v (readable, good, inl (empty, same)) =
    rw (readable, good, empty) (ap returned same)
accepted-returned call (answered r) t v (readable, good, inr (body, found)) =
    rw (readable, good, body, found) refl
accepted-returned call thrown t v h = absurd h
accepted-returned call (refused failure) t v h = absurd h

-- A request returns a value exactly where its answer was accepted with that value.
pub account_request-returned :
    (call : Call) (result : Transport) (t : Tab) (v : Value)
    → ((account_request call result t).0 ≡ returned v) ↔ IsAccepted call result v
unfolding account_request
account_request-returned call result t v =
    (returned-IsAccepted call result t v, accepted-returned call result t v)
