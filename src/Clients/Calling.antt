-- ===== src/Clients/Calling.antt =====
-- How the clients write their requests.
use sewn_covers.Prelude.{
  Bool, true, false, ◌&&◌, ◌||◌, if◌then◌else◌, Option, none, some, is_some, or_else, [], ◌≡◌,
  subst, inl, inr,
}
use sewn_covers.Text.{Text}
use sewn_covers.Value.{Value, undef, Reader, ◌>>=◌}
use sewn_covers.Value.Interface.{Shape, Fits}
use sewn_covers.Clients.Http.{HttpMethod, get, HttpRequest, Transport, answered, refused, thrown}
use sewn_covers.Clients.Session.{Tab}
use sewn_covers.Clients.Request.{account_wording, Call, returned, account_request}
use sewn_covers.Clients.Request.Cases.{account_request-returned, IsAccepted}

abbrev pub http_to : Option HttpMethod → Option Text → Text → Value → HttpRequest
http_to method token path body = record {
  path = path;
  method = method;
  query = [];
  body = body;
  token = token;
  cache = none;
}

-- `{ method, token, body, parser }`
abbrev pub sending : HttpMethod → Option Text → Text → Value → Reader → Call
sending method token path body read = record {
  http = http_to (some method) token path body;
  parser = some read;
  empty = false;
  wording = account_wording;
}

-- `{ token, parser }`
abbrev pub reading : Option Text → Text → Reader → Call
reading token path read = record {
  http = http_to none token path undef;
  parser = some read;
  empty = false;
  wording = account_wording;
}

-- `{ method, token, empty: true }`
abbrev pub emptying : HttpMethod → Text → Text → Call
emptying method token path = record {
  http = http_to (some method) (some token) path undef;
  parser = none;
  empty = true;
  wording = account_wording;
}

abbrev is_get : HttpMethod → Bool
is_get get = true
is_get _ = false

unfoldable pub is_undefined : Shape
is_undefined undef = true
is_undefined _ = false

-- `fetch` rejects a GET with a body, and an answer that is not empty needs a parser.
unfoldable pub is_sendable : Call → Bool
unfolding is_undefined
is_sendable call =
    (if is_get (or_else call.http.method get) then is_undefined call.http.body else true)
    && (call.empty || is_some call.parser)

-- What a request whose answer is parsed returns is of the type that the parser's values have.
pub returned-parsed :
    (call : Call) (read : Reader) (shape : Shape) (result : Transport) (t : Tab) (v : Value)
    → call.parser ≡ some read
    → call.empty ≡ false
    → Fits read shape
    → (account_request call result t).0 ≡ returned v
    → shape v ≡ true
unfolding account_request
returned-parsed call read shape result t v parser body fits h =
    parsed-shape result ((account_request-returned call result t v).0 h)
  where
    parsed-shape : (r : Transport) → IsAccepted call r v → shape v ≡ true
    parsed-shape thrown a = absurd a
    parsed-shape (refused failure) a = absurd a
    parsed-shape (answered r) (_, _, inl (empty, _)) = cc
    parsed-shape (answered r) (_, _, inr (_, found)) =
        fits r.body v (subst (λ o. (o >>= (λ f. f r.body)) ≡ some v) parser found)

-- The values that a call may return are of the type.
pub data IsTyped (call : Call) (shape : Shape) : Type 0 where
  parses :
      (read : Reader)
      → call.parser ≡ some read
      → call.empty ≡ false
      → Fits read shape
      → IsTyped call shape
  drops : call.empty ≡ true → shape undef ≡ true → IsTyped call shape

returned-dropped :
    (call : Call) (shape : Shape) (result : Transport) (v : Value)
    → call.empty ≡ true
    → shape undef ≡ true
    → IsAccepted call result v
    → shape v ≡ true
returned-dropped call shape (answered r) v empty fits (_, _, inl (_, same)) = rw (← same) fits
returned-dropped call shape (answered r) v empty fits (_, _, inr (body, _)) = cc
returned-dropped call shape thrown v empty fits a = absurd a
returned-dropped call shape (refused failure) v empty fits a = absurd a

pub returned-IsTyped :
    (call : Call) (shape : Shape) (result : Transport) (t : Tab) (v : Value)
    → IsTyped call shape
    → (account_request call result t).0 ≡ returned v
    → shape v ≡ true
unfolding account_request
returned-IsTyped call shape result t v (parses read parser body fits) h =
    returned-parsed call read shape result t v parser body fits h
returned-IsTyped call shape result t v (drops empty fits) h =
    returned-dropped call shape result v empty fits ((account_request-returned call result t v).0 h)
