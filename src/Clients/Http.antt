-- ===== src/Clients/Http.antt =====
-- frontend/services/http.ts: the transport that every client of the API sends through.
use sewn_covers.Prelude.{
  ℕ, Bool, true, false, ◌&&◌, ◌==◌, leb, ltb, if◌then◌else◌, Option, none, some, or_else, List, [],
  ◌∷◌, ◌++◌, all, length,
}
use sewn_covers.Text.{Text, codes, is_empty, trim}
use sewn_covers.Text.Patterns.{is_digit}
use sewn_covers.Text.Naturals.{natural_value}
use sewn_covers.Value.{Value, undef}

unfoldable pub request_timeout_ms : ℕ
request_timeout_ms = 20000

pub data HttpMethod : Type 0 where
  delete get patch post put : HttpMethod

-- A body of `undef` is none. A query value of `none` is left out.
pub record HttpRequest : Type 0 where
  pub path : Text
  pub method : Option HttpMethod
  pub query : List (Text × Option Text)
  pub body : Value
  pub token : Option Text
  pub cache : Option Text

-- The `Headers` of a response, by name.
abbrev pub Headers : Type 0
Headers = Text → Option Text

pub record HttpResponse : Type 0 where
  pub status : ℕ
  pub is_ok : Bool
  pub headers : Headers
  pub body : Value
  pub is_unreadable : Bool

pub data TransportFailure : Type 0 where
  aborted configuration network timeout : TransportFailure

-- `send` returns a response, or throws a `TransportError` or the `TypeError` of an address that is
-- none.
pub data Transport : Type 0 where
  answered : HttpResponse → Transport
  refused : TransportFailure → Transport
  thrown : Transport

-- What is handed to `fetch`.
pub record FetchCall : Type 0 where
  pub url : Text
  pub method : HttpMethod
  pub headers : List (Text × Text)
  pub body : Value
  pub cache : Option Text

-- How `fetch` and the reading of its text settle: a response with its text, or an error, at which
-- the caller may have cancelled and the time limit may have passed.
pub data Fetched : Type 0 where
  replied : (status : ℕ) (is_ok : Bool) (headers : Headers) (text : Text) → Fetched
  broken : (is_cancelled is_timed_out : Bool) → Fetched

-- `request.path.replace(/^\/+/, "")`
unfoldable pub strip_slashes : Text → Text
strip_slashes [] = []
strip_slashes (c ∷ s) = let rest = strip_slashes s in if c == b'/' then rest else c ∷ s

abbrev pub parameters : List (Text × Option Text) → List (Text × Text)
parameters [] = []
parameters ((name, some value) ∷ query) = (name, value) ∷ parameters query
parameters ((name, none) ∷ query) = parameters query

abbrev pub is_truthy : Option Text → Bool
is_truthy none = false
is_truthy (some []) = false
is_truthy (some (_ ∷ _)) = true

abbrev is_defined : Value → Bool
is_defined undef = false
is_defined _ = true

abbrev pub content_headers : Value → List (Text × Text)
content_headers body =
    if is_defined body then (codes "Content-Type", codes "application/json") ∷ [] else []

abbrev pub authorization_headers : Option Text → List (Text × Text)
authorization_headers none = []
authorization_headers (some []) = []
authorization_headers (some (c ∷ s)) = (codes "Authorization", codes "Bearer " ++ (c ∷ s)) ∷ []

unfoldable pub fetch_call : HttpRequest → Text → FetchCall
fetch_call r url = record {
  url = url;
  method = or_else r.method get;
  headers = content_headers r.body ++ authorization_headers r.token;
  body = r.body;
  cache = r.cache;
}

-- `error` in the `catch` of `send`, where the request was sent.
abbrev pub failure_of : Bool → Bool → TransportFailure
failure_of is_cancelled is_timed_out =
    if is_cancelled then aborted else if is_timed_out then timeout else network

-- The address that was built in, and the browser's `URL` with its query, `fetch` and `JSON.parse`:
-- `none` where they throw.
module _ (api_url : Text) (make_url : Text → List (Text × Text) → Option Text)
    (parse_json : Text → Option Value) where
  abbrev parsed_body : Option Value → Value × Bool
  parsed_body none = (undef, true)
  parsed_body (some body) = (body, false)

  unfoldable pub read_body : Text → Value × Bool
  read_body [] = (undef, false)
  read_body (c ∷ s) = parsed_body (parse_json (c ∷ s))

  unfoldable pub build_url : HttpRequest → Option Text
  unfolding strip_slashes
  build_url r = make_url (api_url ++ (b'/' ∷ strip_slashes r.path)) (parameters r.query)

  abbrev pub settled : Fetched → Transport
  settled (replied status is_ok headers text) =
      let (body, is_unreadable) = read_body text in
      answered (record {
        status = status;
        is_ok = is_ok;
        headers = headers;
        body = body;
        is_unreadable = is_unreadable;
      })
  settled (broken is_cancelled is_timed_out) = refused (failure_of is_cancelled is_timed_out)

  module _ (fetch : FetchCall → Fetched) where
    abbrev sent_to : HttpRequest → Bool → Option Text → Transport
    sent_to r is_cancelled none = thrown
    sent_to r is_cancelled (some url) =
        if is_cancelled then refused aborted else settled (fetch (fetch_call r url))

    -- `send`; the flag says that the caller had cancelled before.
    unfoldable pub send : HttpRequest → Bool → Transport
    unfolding is_empty build_url fetch_call read_body
    send r is_cancelled =
        if is_empty api_url then refused configuration else sent_to r is_cancelled (build_url r)

-- /^\d{1,6}$/, and more than zero.
abbrev pub is_delay : Text → Bool
is_delay value =
    leb 1 (length value)
    && leb (length value) 6
    && all is_digit value
    && ltb 0 (natural_value value)

abbrev pub header_seconds : Text → Option ℕ
header_seconds value = if is_delay value then some (natural_value value) else none

-- `retryAfterSeconds`
unfoldable pub retry_after_seconds : Headers → Option ℕ
unfolding trim is_digit natural_value
retry_after_seconds headers = header_seconds (trim (or_else (headers (codes "Retry-After")) []))
