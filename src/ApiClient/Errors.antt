-- ===== src/ApiClient/Errors.antt =====
-- `parseApiErrorResponse`: the error envelope of the service.
use sewn_covers.Prelude.{Bool, true, false, ◌&&◌, if◌then◌else◌, Option, none, some, List, [], ◌∷◌}
use sewn_covers.Number.{Num, fin, magnitude, unit_scale}
use sewn_covers.Prelude.{◌%◌, ◌==◌}
use sewn_covers.Text.{Text}
use sewn_covers.Value.{
  Value, str, num, arr, Items, nil, cons, Fields, lookup, has_field, as_record, ◌>>=◌,
}
use sewn_covers.ApiClient.Types.{ApiErrorDetail, ApiErrorResponse}

-- `Number.isInteger`.
abbrev is_whole : Num → Bool
is_whole (fin s m e) = magnitude m e % unit_scale == 0
is_whole _ = false

abbrev is_segment : Value → Bool
is_segment (str s) = true
is_segment (num n) = is_whole n
is_segment _ = false

abbrev all_segments : Items → Bool
all_segments nil = true
all_segments (cons v vs) = is_segment v && all_segments vs

unfoldable pub parse_location : Value → Option Items
parse_location (arr (cons v vs)) = if all_segments (cons v vs) then some (cons v vs) else none
parse_location _ = none

abbrev as_string : Value → Option Text
as_string (str s) = some s
as_string _ = none

abbrev error_location : Fields → Option Items
error_location fs =
    if has_field "location" fs then parse_location (lookup "location" fs) else some nil

unfoldable pub parse_error_detail : Value → Option ApiErrorDetail
unfolding as_record lookup has_field parse_location
parse_error_detail value = do
  fs ← as_record value
  code ← as_string (lookup "code" fs)
  message ← as_string (lookup "message" fs)
  location ← error_location fs
  some (record { code = code; message = message; location = location })

abbrev parse_details : Items → Option (List ApiErrorDetail)
parse_details nil = some []
parse_details (cons v vs) = do
  detail ← parse_error_detail v
  rest ← parse_details vs
  some (detail ∷ rest)

abbrev parse_errors : Value → Option (List ApiErrorDetail)
parse_errors (arr (cons v vs)) = parse_details (cons v vs)
parse_errors _ = none

-- The request id, if there is a field for it.
abbrev parse_request_id : Fields → Option (Option Text)
parse_request_id fs =
    if has_field "requestId" fs
    then (do id ← as_string (lookup "requestId" fs); some (some id))
    else some none

unfoldable pub parse_api_error_response : Value → Option ApiErrorResponse
unfolding as_record lookup has_field parse_error_detail
parse_api_error_response value = do
  fs ← as_record value
  request_id ← parse_request_id fs
  errors ← parse_errors (lookup "errors" fs)
  some (record { errors = errors; request_id = request_id })
