-- ===== src/Clients/Account/Stable.antt =====
-- Every reader of frontend/services/account-api.ts accepts what it returns.
use sewn_covers.Value.Laws.{IsStable, record_of-IsStable, list_of-IsStable}
use sewn_covers.Value.Stable.{stability}
use sewn_covers.Clients.Account.Tables.{
  number_or_null, read_configuration, read_account, read_session, read_version, read_share,
  read_created_share, read_project_summary, read_project_detail, read_upload, read_upload_operation,
  read_upload_intent, read_asset_access, read_auth_session, read_shared_configuration,
  read_deleted_upload, read_export, read_session_list, read_project_list, read_version_list,
  read_upload_list,
}
use sewn_covers.Clients.Account.Patterns.{read_pattern_choice-IsStable, read_string_map-IsStable}

pub number_or_null-IsStable : IsStable number_or_null
number_or_null-IsStable = search stability

pub read_configuration-IsStable : IsStable read_configuration
read_configuration-IsStable =
    record_of-IsStable _ (search (stability, read_pattern_choice-IsStable, number_or_null-IsStable))
      (search stability)

pub read_account-IsStable : IsStable read_account
read_account-IsStable = record_of-IsStable _ (search stability) (search stability)

pub read_session-IsStable : IsStable read_session
read_session-IsStable = record_of-IsStable _ (search stability) (search stability)

pub read_version-IsStable : IsStable read_version
read_version-IsStable =
    record_of-IsStable _ (search (stability, read_configuration-IsStable)) (search stability)

pub read_share-IsStable : IsStable read_share
read_share-IsStable = record_of-IsStable _ (search stability) (search stability)

pub read_created_share-IsStable : IsStable read_created_share
read_created_share-IsStable = record_of-IsStable _ (search stability) (search stability)

pub read_project_summary-IsStable : IsStable read_project_summary
read_project_summary-IsStable = record_of-IsStable _ (search stability) (search stability)

pub read_project_detail-IsStable : IsStable read_project_detail
read_project_detail-IsStable =
    record_of-IsStable _ (search (stability, read_version-IsStable, read_share-IsStable))
      (search stability)

pub read_upload-IsStable : IsStable read_upload
read_upload-IsStable = record_of-IsStable _ (search stability) (search stability)

pub read_upload_operation-IsStable : IsStable read_upload_operation
read_upload_operation-IsStable =
    record_of-IsStable _ (search (stability, read_string_map-IsStable)) (search stability)

pub read_upload_intent-IsStable : IsStable read_upload_intent
read_upload_intent-IsStable =
    record_of-IsStable _ (search (stability, read_upload_operation-IsStable)) (search stability)

pub read_asset_access-IsStable : IsStable read_asset_access
read_asset_access-IsStable = record_of-IsStable _ (search stability) (search stability)

pub read_auth_session-IsStable : IsStable read_auth_session
read_auth_session-IsStable =
    record_of-IsStable _ (search (stability, read_account-IsStable)) (search stability)

pub read_shared_configuration-IsStable : IsStable read_shared_configuration
read_shared_configuration-IsStable =
    record_of-IsStable _ (search (stability, read_configuration-IsStable)) (search stability)

pub read_deleted_upload-IsStable : IsStable read_deleted_upload
read_deleted_upload-IsStable = record_of-IsStable _ (search stability) (search stability)

pub read_export-IsStable : IsStable read_export
read_export-IsStable = search stability

pub read_session_list-IsStable : IsStable read_session_list
read_session_list-IsStable = list_of-IsStable _ (search (stability, read_session-IsStable))

pub read_project_list-IsStable : IsStable read_project_list
read_project_list-IsStable = list_of-IsStable _ (search (stability, read_project_summary-IsStable))

pub read_version_list-IsStable : IsStable read_version_list
read_version_list-IsStable = list_of-IsStable _ (search (stability, read_version-IsStable))

pub read_upload_list-IsStable : IsStable read_upload_list
read_upload_list-IsStable = list_of-IsStable _ (search (stability, read_upload-IsStable))
