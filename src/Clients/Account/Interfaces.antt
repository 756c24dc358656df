-- ===== src/Clients/Account/Interfaces.antt =====
-- The interfaces of frontend/services/account-api.ts.
use sewn_covers.Prelude.{String, false, ◌||◌, List, [], ◌∷◌, ◌++◌, map}
use sewn_covers.Text.{codes}
use sewn_covers.Value.{obj, is_one_of}
use sewn_covers.Value.Interface.{
  Shape, is_string, is_number, is_boolean, is_literal, is_known, is_nullable, is_array,
  is_interface,
}
use sewn_covers.Configuration.{
  cushion_shapes, shape_id, measurement_units, unit_id, material_ids, material_id, fit_preferences,
  fit_id, closure_types, closure_id, seam_styles, seam_id,
}
use sewn_covers.Clients.Account.Tables.{
  account_roles, project_privacy, upload_states, moderation_states, all_strings,
}

-- `Readonly<Record<string, string>>`
unfoldable pub is_string_map : Shape
unfolding all_strings
is_string_map (obj fs) = all_strings fs
is_string_map _ = false

abbrev pub built_in_choice : List (String × Shape)
built_in_choice = ("kind", is_literal (codes "built-in")) ∷ ("patternId", is_string) ∷ []

abbrev pub solid_choice : List (String × Shape)
solid_choice = ("kind", is_literal (codes "solid")) ∷ ("color", is_string) ∷ []

abbrev pub custom_choice : List (String × Shape)
custom_choice =
    ("kind", is_literal (codes "custom"))
    ∷ ("assetId", is_string)
    ∷ ("derivativeId", is_string)
    ∷ ("processingVersion", is_string)
    ∷ []

unfoldable pub is_project_pattern_choice : Shape
unfolding is_interface
is_project_pattern_choice value =
    is_interface built_in_choice value
    || is_interface solid_choice value
    || is_interface custom_choice value

-- The fields of `CreateDesignRequest`, with the pattern in place of the pattern id and the colour.
abbrev pub project_configuration_request_interface : List (String × Shape)
project_configuration_request_interface =
    ("shape", is_one_of (map shape_id cushion_shapes))
    ∷ ("width", is_number)
    ∷ ("height", is_number)
    ∷ ("thickness", is_number)
    ∷ ("unit", is_one_of (map unit_id measurement_units))
    ∷ ("patternScale", is_number)
    ∷ ("backWidth", is_nullable is_number)
    ∷ ("materialId", is_one_of (map material_id material_ids))
    ∷ ("fitPreference", is_one_of (map fit_id fit_preferences))
    ∷ ("closureType", is_one_of (map closure_id closure_types))
    ∷ ("seamStyle", is_one_of (map seam_id seam_styles))
    ∷ ("pattern", is_project_pattern_choice)
    ∷ []

abbrev pub is_project_configuration_request : Shape
is_project_configuration_request = is_interface project_configuration_request_interface

abbrev pub account_interface : List (String × Shape)
account_interface =
    ("email", is_string) ∷ ("createdAt", is_string) ∷ ("role", is_one_of account_roles) ∷ []

abbrev pub is_account : Shape
is_account = is_interface account_interface

abbrev pub auth_session_interface : List (String × Shape)
auth_session_interface =
    ("account", is_account) ∷ ("token", is_string) ∷ ("expiresAt", is_string) ∷ []

abbrev pub is_auth_session : Shape
is_auth_session = is_interface auth_session_interface

abbrev pub session_metadata_interface : List (String × Shape)
session_metadata_interface =
    ("id", is_number)
    ∷ ("createdAt", is_string)
    ∷ ("expiresAt", is_string)
    ∷ ("revokedAt", is_nullable is_string)
    ∷ ("current", is_boolean)
    ∷ []

abbrev pub is_session_metadata : Shape
is_session_metadata = is_interface session_metadata_interface

abbrev pub project_version_interface : List (String × Shape)
project_version_interface =
    ("id", is_string)
    ∷ ("versionNumber", is_number)
    ∷ ("configuration", is_project_configuration_request)
    ∷ ("createdAt", is_string)
    ∷ ("isCurrent", is_boolean)
    ∷ []

abbrev pub is_project_version : Shape
is_project_version = is_interface project_version_interface

abbrev pub share_grant_interface : List (String × Shape)
share_grant_interface =
    ("id", is_string)
    ∷ ("versionId", is_string)
    ∷ ("versionNumber", is_number)
    ∷ ("createdAt", is_string)
    ∷ []

abbrev pub is_share_grant : Shape
is_share_grant = is_interface share_grant_interface

abbrev pub created_share_interface : List (String × Shape)
created_share_interface = share_grant_interface ++ (("shareToken", is_string) ∷ [])

abbrev pub is_created_share : Shape
is_created_share = is_interface created_share_interface

abbrev pub project_summary_interface : List (String × Shape)
project_summary_interface =
    ("id", is_string)
    ∷ ("name", is_string)
    ∷ ("versionCount", is_number)
    ∷ ("updatedAt", is_string)
    ∷ ("privacy", is_one_of project_privacy)
    ∷ []

abbrev pub is_project_summary : Shape
is_project_summary = is_interface project_summary_interface

abbrev pub project_detail_interface : List (String × Shape)
project_detail_interface =
    project_summary_interface
    ++ (("createdAt", is_string)
        ∷ ("currentVersion", is_project_version)
        ∷ ("activeShares", is_array is_share_grant)
        ∷ [])

abbrev pub is_project_detail : Shape
is_project_detail = is_interface project_detail_interface

abbrev pub custom_upload_interface : List (String × Shape)
custom_upload_interface =
    ("id", is_string)
    ∷ ("label", is_string)
    ∷ ("state", is_known upload_states)
    ∷ ("moderationState", is_known moderation_states)
    ∷ ("contentType", is_string)
    ∷ ("byteSize", is_number)
    ∷ ("width", is_nullable is_number)
    ∷ ("height", is_nullable is_number)
    ∷ ("processingVersion", is_string)
    ∷ ("tileDerivativeId", is_nullable is_string)
    ∷ ("thumbnailDerivativeId", is_nullable is_string)
    ∷ ("processingAttempts", is_number)
    ∷ ("moderationAttempts", is_number)
    ∷ ("retryEligible", is_boolean)
    ∷ ("referencedByVersions", is_number)
    ∷ ("createdAt", is_string)
    ∷ ("updatedAt", is_string)
    ∷ ("deletedAt", is_nullable is_string)
    ∷ []

abbrev pub is_custom_upload : Shape
is_custom_upload = is_interface custom_upload_interface

abbrev pub upload_operation_interface : List (String × Shape)
upload_operation_interface =
    ("method", is_one_of (codes "POST" ∷ codes "PUT" ∷ []))
    ∷ ("url", is_string)
    ∷ ("headers", is_string_map)
    ∷ ("fields", is_string_map)
    ∷ ("expiresAt", is_string)
    ∷ []

abbrev pub is_upload_operation : Shape
is_upload_operation = is_interface upload_operation_interface

abbrev pub upload_intent_interface : List (String × Shape)
upload_intent_interface = custom_upload_interface ++ (("upload", is_upload_operation) ∷ [])

abbrev pub is_upload_intent : Shape
is_upload_intent = is_interface upload_intent_interface

abbrev pub asset_access_interface : List (String × Shape)
asset_access_interface =
    ("url", is_string)
    ∷ ("expiresAt", is_string)
    ∷ ("contentType", is_literal (codes "image/png"))
    ∷ []

abbrev pub is_asset_access : Shape
is_asset_access = is_interface asset_access_interface
