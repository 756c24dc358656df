-- ===== src/Clients/Account/Typed.antt =====
-- Every reader of frontend/services/account-api.ts returns values of the interface that its type names.
use sewn_covers.Prelude.{[], ◌∷◌}
use sewn_covers.Text.{codes}
use sewn_covers.Value.Interface.{
  Fits, record_of-Fits, list_of-Fits, is_string, is_number, is_literal, is_object, is_nullable,
  is_array, is_interface,
}
use sewn_covers.Value.Typed.{typing}
use sewn_covers.Clients.Account.Tables.{
  number_or_null, read_configuration, read_account, read_session, read_version, read_share,
  read_created_share, read_project_summary, read_project_detail, read_upload, read_upload_operation,
  read_upload_intent, read_asset_access, read_auth_session, read_shared_configuration,
  read_deleted_upload, read_export, read_session_list, read_project_list, read_version_list,
  read_upload_list,
}
use sewn_covers.Clients.Account.Interfaces.{
  account_interface, asset_access_interface, auth_session_interface, created_share_interface,
  custom_upload_interface, is_account, is_asset_access, is_auth_session, is_created_share,
  is_custom_upload, is_project_configuration_request, is_project_detail, is_project_summary,
  is_project_version, is_session_metadata, is_share_grant, is_upload_intent, is_upload_operation,
  project_configuration_request_interface, project_detail_interface, project_summary_interface,
  project_version_interface, session_metadata_interface, share_grant_interface,
  upload_intent_interface, upload_operation_interface,
}
use sewn_covers.Clients.Account.Patterns.{read_pattern_choice-Fits, read_string_map-Fits}

pub number_or_null-Fits : Fits number_or_null (is_nullable is_number)
number_or_null-Fits = search typing

pub read_configuration-Fits : Fits read_configuration is_project_configuration_request
read_configuration-Fits =
    record_of-Fits _ project_configuration_request_interface
      (search (typing, read_pattern_choice-Fits, number_or_null-Fits))

pub read_account-Fits : Fits read_account is_account
read_account-Fits = record_of-Fits _ account_interface (search typing)

pub read_session-Fits : Fits read_session is_session_metadata
read_session-Fits = record_of-Fits _ session_metadata_interface (search typing)

pub read_version-Fits : Fits read_version is_project_version
read_version-Fits =
    record_of-Fits _ project_version_interface (search (typing, read_configuration-Fits))

pub read_share-Fits : Fits read_share is_share_grant
read_share-Fits = record_of-Fits _ share_grant_interface (search typing)

pub read_created_share-Fits : Fits read_created_share is_created_share
read_created_share-Fits = record_of-Fits _ created_share_interface (search typing)

pub read_project_summary-Fits : Fits read_project_summary is_project_summary
read_project_summary-Fits = record_of-Fits _ project_summary_interface (search typing)

pub read_project_detail-Fits : Fits read_project_detail is_project_detail
read_project_detail-Fits =
    record_of-Fits _ project_detail_interface (search (typing, read_version-Fits, read_share-Fits))

pub read_upload-Fits : Fits read_upload is_custom_upload
read_upload-Fits = record_of-Fits _ custom_upload_interface (search typing)

pub read_upload_operation-Fits : Fits read_upload_operation is_upload_operation
read_upload_operation-Fits =
    record_of-Fits _ upload_operation_interface (search (typing, read_string_map-Fits))

pub read_upload_intent-Fits : Fits read_upload_intent is_upload_intent
read_upload_intent-Fits =
    record_of-Fits _ upload_intent_interface (search (typing, read_upload_operation-Fits))

pub read_asset_access-Fits : Fits read_asset_access is_asset_access
read_asset_access-Fits = record_of-Fits _ asset_access_interface (search typing)

pub read_auth_session-Fits : Fits read_auth_session is_auth_session
read_auth_session-Fits =
    record_of-Fits _ auth_session_interface (search (typing, read_account-Fits))

pub read_shared_configuration-Fits :
    Fits read_shared_configuration
      (is_interface (("configuration", is_project_configuration_request) ∷ []))
read_shared_configuration-Fits =
    record_of-Fits _ (("configuration", is_project_configuration_request) ∷ [])
      (search (typing, read_configuration-Fits))

pub read_deleted_upload-Fits : Fits read_deleted_upload (
    is_interface (
      ("id", is_string)
      ∷ ("state", is_literal (codes "deleted"))
      ∷ ("referencedByVersions", is_number)
      ∷ []))
read_deleted_upload-Fits =
    record_of-Fits _
      (("id", is_string)
        ∷ ("state", is_literal (codes "deleted"))
        ∷ ("referencedByVersions", is_number)
        ∷ [])
      (search typing)

pub read_export-Fits : Fits read_export is_object
read_export-Fits = search typing

pub read_session_list-Fits : Fits read_session_list (is_array is_session_metadata)
read_session_list-Fits = list_of-Fits _ _ (search (typing, read_session-Fits))

pub read_project_list-Fits : Fits read_project_list (is_array is_project_summary)
read_project_list-Fits = list_of-Fits _ _ (search (typing, read_project_summary-Fits))

pub read_version_list-Fits : Fits read_version_list (is_array is_project_version)
read_version_list-Fits = list_of-Fits _ _ (search (typing, read_version-Fits))

pub read_upload_list-Fits : Fits read_upload_list (is_array is_custom_upload)
read_upload_list-Fits = list_of-Fits _ _ (search (typing, read_upload-Fits))
