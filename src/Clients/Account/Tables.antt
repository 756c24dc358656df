-- ===== src/Clients/Account/Tables.antt =====
-- The readers of frontend/services/account-api.ts.
use sewn_covers.Prelude.{
  String, Bool, true, false, if◌then◌else◌, Option, none, some, List, [], ◌∷◌, ◌++◌, map,
}
use sewn_covers.Text.{Text, codes, text_eq}
use sewn_covers.Text.Patterns.{is_hex_color}
use sewn_covers.Value.{
  Value, str, obj, Fields, end, field, lookup, as_record, Reader, text, boolean, numeric,
  any_record, literal, matching, one_of, known_or_unknown, or_null, text_or_null, record_of,
  list_of, ◌>>=◌,
}
use sewn_covers.Configuration.{
  cushion_shapes, shape_id, measurement_units, unit_id, material_ids, material_id, fit_preferences,
  fit_id, closure_types, closure_id, seam_styles, seam_id,
}
use sewn_covers.Clients.Session.{is_session_token}

abbrev pub text_field : String → Fields → Option Text
text_field key fs = elim (lookup key fs) [ str s ↦ some s | _ ↦ none ]

abbrev pub custom_pattern : Fields → Option Value
custom_pattern fs = do
  asset ← text_field "assetId" fs
  derivative ← text_field "derivativeId" fs
  version ← text_field "processingVersion" fs
  some (
      obj (
        field "kind" (str (codes "custom")) (
          field "assetId" (str asset)
            (field "derivativeId" (str derivative) (field "processingVersion" (str version) end)))))

abbrev pub solid_pattern : Fields → Option Value
solid_pattern fs = do
  color ← text_field "color" fs
  (if is_hex_color color
      then some (obj (field "kind" (str (codes "solid")) (field "color" (str color) end)))
      else none)

abbrev pub built_in_pattern : Fields → Option Value
built_in_pattern fs = do
  id ← text_field "patternId" fs
  some (obj (field "kind" (str (codes "built-in")) (field "patternId" (str id) end)))

abbrev pub pattern_of_kind : Text → Fields → Option Value
pattern_of_kind kind fs =
    if text_eq kind (codes "built-in")
    then built_in_pattern fs
    else if text_eq kind (codes "solid")
    then solid_pattern fs
    else if text_eq kind (codes "custom")
    then custom_pattern fs
    else none

-- `readPatternChoice`
unfoldable pub read_pattern_choice : Reader
unfolding as_record text_eq lookup is_hex_color
read_pattern_choice value = do
  fs ← as_record value
  kind ← text_field "kind" fs
  pattern_of_kind kind fs

unfoldable pub all_strings : Fields → Bool
all_strings end = true
all_strings (field key (str s) fs) = all_strings fs
all_strings (field key _ fs) = false

-- `readStringMap`
unfoldable pub read_string_map : Reader
unfolding all_strings as_record
read_string_map value = do fs ← as_record value; (if all_strings fs then some (obj fs) else none)

abbrev pub account_roles : List Text
account_roles = codes "customer" ∷ codes "administrator" ∷ []

abbrev pub project_privacy : List Text
project_privacy = codes "private" ∷ codes "shared" ∷ []

abbrev pub upload_states : List Text
upload_states =
    codes "awaiting_upload"
    ∷ codes "uploaded"
    ∷ codes "processing"
    ∷ codes "awaiting_moderation"
    ∷ codes "approved"
    ∷ codes "rejected"
    ∷ codes "failed"
    ∷ codes "deleted"
    ∷ codes "expired"
    ∷ []

abbrev pub moderation_states : List Text
moderation_states =
    codes "not_started"
    ∷ codes "pending"
    ∷ codes "approved"
    ∷ codes "rejected"
    ∷ codes "unavailable"
    ∷ codes "failed"
    ∷ []

abbrev pub upload_methods : List Text
upload_methods = codes "POST" ∷ codes "PUT" ∷ []

abbrev pub number_or_null : Reader
number_or_null = or_null numeric

abbrev pub read_configuration : Reader
read_configuration = record_of (
    ("shape", one_of (map shape_id cushion_shapes))
    ∷ ("width", numeric)
    ∷ ("height", numeric)
    ∷ ("backWidth", number_or_null)
    ∷ ("thickness", numeric)
    ∷ ("unit", one_of (map unit_id measurement_units))
    ∷ ("pattern", read_pattern_choice)
    ∷ ("patternScale", numeric)
    ∷ ("materialId", one_of (map material_id material_ids))
    ∷ ("fitPreference", one_of (map fit_id fit_preferences))
    ∷ ("closureType", one_of (map closure_id closure_types))
    ∷ ("seamStyle", one_of (map seam_id seam_styles))
    ∷ [])

abbrev pub read_account : Reader
read_account =
    record_of (("email", text) ∷ ("createdAt", text) ∷ ("role", one_of account_roles) ∷ [])

abbrev pub read_session : Reader
read_session = record_of (
    ("id", numeric)
    ∷ ("createdAt", text)
    ∷ ("expiresAt", text)
    ∷ ("revokedAt", text_or_null)
    ∷ ("current", boolean)
    ∷ [])

abbrev pub read_version : Reader
read_version = record_of (
    ("id", text)
    ∷ ("versionNumber", numeric)
    ∷ ("configuration", read_configuration)
    ∷ ("createdAt", text)
    ∷ ("isCurrent", boolean)
    ∷ [])

abbrev pub share_fields : List (String × Reader)
share_fields =
    ("id", text) ∷ ("versionId", text) ∷ ("versionNumber", numeric) ∷ ("createdAt", text) ∷ []

abbrev pub read_share : Reader
read_share = record_of share_fields

abbrev pub read_created_share : Reader
read_created_share = record_of (share_fields ++ (("shareToken", text) ∷ []))

abbrev pub project_summary_fields : List (String × Reader)
project_summary_fields =
    ("id", text)
    ∷ ("name", text)
    ∷ ("versionCount", numeric)
    ∷ ("updatedAt", text)
    ∷ ("privacy", one_of project_privacy)
    ∷ []

abbrev pub read_project_summary : Reader
read_project_summary = record_of project_summary_fields

abbrev pub read_project_detail : Reader
read_project_detail = record_of (
    project_summary_fields
    ++ (("createdAt", text)
        ∷ ("currentVersion", read_version)
        ∷ ("activeShares", list_of read_share)
        ∷ []))

abbrev pub upload_fields : List (String × Reader)
upload_fields =
    ("id", text)
    ∷ ("label", text)
    ∷ ("state", known_or_unknown upload_states)
    ∷ ("moderationState", known_or_unknown moderation_states)
    ∷ ("contentType", text)
    ∷ ("byteSize", numeric)
    ∷ ("width", number_or_null)
    ∷ ("height", number_or_null)
    ∷ ("processingVersion", text)
    ∷ ("tileDerivativeId", text_or_null)
    ∷ ("thumbnailDerivativeId", text_or_null)
    ∷ ("processingAttempts", numeric)
    ∷ ("moderationAttempts", numeric)
    ∷ ("retryEligible", boolean)
    ∷ ("referencedByVersions", numeric)
    ∷ ("createdAt", text)
    ∷ ("updatedAt", text)
    ∷ ("deletedAt", text_or_null)
    ∷ []

abbrev pub read_upload : Reader
read_upload = record_of upload_fields

abbrev pub read_upload_operation : Reader
read_upload_operation = record_of (
    ("method", one_of upload_methods)
    ∷ ("url", text)
    ∷ ("headers", read_string_map)
    ∷ ("fields", read_string_map)
    ∷ ("expiresAt", text)
    ∷ [])

abbrev pub read_upload_intent : Reader
read_upload_intent = record_of (upload_fields ++ (("upload", read_upload_operation) ∷ []))

abbrev pub read_asset_access : Reader
read_asset_access =
    record_of
      (("url", text) ∷ ("expiresAt", text) ∷ ("contentType", literal (codes "image/png")) ∷ [])

abbrev pub read_auth_session : Reader
read_auth_session =
    record_of
      (("account", read_account) ∷ ("token", matching is_session_token) ∷ ("expiresAt", text) ∷ [])

abbrev pub read_shared_configuration : Reader
read_shared_configuration = record_of (("configuration", read_configuration) ∷ [])

abbrev pub read_deleted_upload : Reader
read_deleted_upload =
    record_of
      (("id", text) ∷ ("state", literal (codes "deleted")) ∷ ("referencedByVersions", numeric) ∷ [])

abbrev pub read_export : Reader
read_export = any_record

abbrev pub read_session_list : Reader
read_session_list = list_of read_session

abbrev pub read_project_list : Reader
read_project_list = list_of read_project_summary

abbrev pub read_version_list : Reader
read_version_list = list_of read_version

abbrev pub read_upload_list : Reader
read_upload_list = list_of read_upload
