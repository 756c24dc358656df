-- ===== src/ApiClient/Responses.antt =====
-- The responses that are read in frontend/services/api-client.ts, and the requests they belong to.
use sewn_covers.Prelude.{
  Bool, false, ◌&&◌, ◌||◌, ◌==◌, leb, if◌then◌else◌, Option, none, some, List, [], ◌∷◌, all, length,
  find,
}
use sewn_covers.Text.{Text, codes, text_eq}
use sewn_covers.Text.Patterns.{is_digit}
use sewn_covers.Value.{
  Value, null, flag, str, arr, Items, nil, cons, Fields, lookup, has_field, as_record, ◌>>=◌,
}
use sewn_covers.ApiClient.Request.{get, RequestDefinition}

pub data DatabaseState : Type 0 where
  healthy unavailable unconfigured : DatabaseState

abbrev pub database_state_id : DatabaseState → Text
database_state_id healthy = codes "healthy"
database_state_id unavailable = codes "unavailable"
database_state_id unconfigured = codes "unconfigured"

abbrev pub database_states : List DatabaseState
database_states = healthy ∷ unavailable ∷ unconfigured ∷ []

-- `commit` is `none` where the field is absent, and `some none` where it is null.
pub record HealthResponse : Type 0 where
  pub database : DatabaseState
  pub commit : Option (Option Text)

pub record UploadAvailabilityResponse : Type 0 where
  pub enabled : Bool

pub record PatternResponse : Type 0 where
  pub id : Text
  pub name : Text
  pub description : Text
  pub category_id : Text
  pub color_ids : List Text
  pub preview_class_name : Text

abbrev as_string : Value → Option Text
as_string (str s) = some s
as_string _ = none

abbrev is_string : Text → Value → Bool
is_string t (str s) = text_eq s t
is_string t _ = false

-- /^[0-9a-f]{40}$/
unfoldable pub is_commit : Text → Bool
unfolding is_digit
is_commit s = length s == 40 && all (λ c. is_digit c || leb b'a' c && leb c b'f') s

abbrev read_commit : Value → Option (Option Text)
read_commit null = some none
read_commit (str s) = if is_commit s then some (some s) else none
read_commit _ = none

abbrev optional_commit : Fields → Option (Option (Option Text))
optional_commit fs =
    if has_field "commit" fs
    then (do commit ← read_commit (lookup "commit" fs); some (some commit))
    else some none

unfoldable pub parse_health_response : Value → Option HealthResponse
unfolding as_record lookup has_field text_eq is_commit
parse_health_response value = do
  fs ← as_record value
  process ←
      (if is_string (codes "healthy") (lookup "process" fs) then some (codes "healthy") else none)
  database ← find (λ d. is_string (database_state_id d) (lookup "database" fs)) database_states
  commit ← optional_commit fs
  some (record { database = database; commit = commit })

abbrev availability_of : Value → Option UploadAvailabilityResponse
availability_of (flag enabled) = some (record { enabled = enabled })
availability_of _ = none

unfoldable pub parse_upload_availability : Value → Option UploadAvailabilityResponse
unfolding as_record lookup
parse_upload_availability value = do fs ← as_record value; availability_of (lookup "enabled" fs)

abbrev strings : Items → Option (List Text)
strings nil = some []
strings (cons v vs) = do s ← as_string v; rest ← strings vs; some (s ∷ rest)

abbrev string_list : Value → Option (List Text)
string_list (arr vs) = strings vs
string_list _ = none

unfoldable pub parse_pattern_response : Value → Option PatternResponse
unfolding as_record lookup
parse_pattern_response value = do
  fs ← as_record value
  id ← as_string (lookup "id" fs)
  name ← as_string (lookup "name" fs)
  description ← as_string (lookup "description" fs)
  category_id ← as_string (lookup "categoryId" fs)
  color_ids ← string_list (lookup "colorIds" fs)
  preview_class_name ← as_string (lookup "previewClassName" fs)
  some (record {
    id = id;
    name = name;
    description = description;
    category_id = category_id;
    color_ids = color_ids;
    preview_class_name = preview_class_name;
  })

abbrev patterns : Items → Option (List PatternResponse)
patterns nil = some []
patterns (cons v vs) = do p ← parse_pattern_response v; rest ← patterns vs; some (p ∷ rest)

-- One unreadable pattern makes the list unreadable.
unfoldable pub parse_pattern_list : Value → Option (List PatternResponse)
unfolding parse_pattern_response
parse_pattern_list (arr vs) = patterns vs
parse_pattern_list _ = none

-- The requests of the client, less their paths.
unfoldable pub get_health : RequestDefinition HealthResponse
unfolding parse_health_response
get_health = record {
  method = get;
  expected_statuses = 200 ∷ 503 ∷ [];
  parse = parse_health_response;
}

unfoldable pub get_upload_availability : RequestDefinition UploadAvailabilityResponse
unfolding parse_upload_availability
get_upload_availability = record {
  method = get;
  expected_statuses = 200 ∷ [];
  parse = parse_upload_availability;
}

unfoldable pub list_patterns : RequestDefinition (List PatternResponse)
unfolding parse_pattern_list
list_patterns = record { method = get; expected_statuses = 200 ∷ []; parse = parse_pattern_list }
