-- ===== src/Clients/Account/Results.antt =====
-- What the calls of frontend/services/account-api.ts return is of the type that they declare.
use sewn_covers.Prelude.{true, [], ◌∷◌, ◌≡◌, refl}
use sewn_covers.Number.{Num}
use sewn_covers.Text.{Text, codes}
use sewn_covers.Value.Interface.{
  Shape, is_array, is_interface, is_literal, is_number, is_object, is_string,
}
use sewn_covers.Clients.Calling.{is_undefined, is_sendable, IsTyped, parses, drops}
use sewn_covers.Clients.Account.Calls.{
  AccountCall, ProjectCall, UploadCall, account_call, project_call, upload_call, register, login,
  current, logout, logout_all, sessions, export, revoke_session, delete_account, list_projects,
  create_project, get_project, rename_project, delete_project, list_versions, get_version,
  create_version, create_share, revoke_share, restore_share, list_uploads, create_upload_intent,
  get_upload, confirm_upload, rename_upload, retry_upload, delete_upload, asset_access,
}
use sewn_covers.Clients.Account.Interfaces.{
  is_account, is_asset_access, is_auth_session, is_created_share, is_custom_upload,
  is_project_configuration_request, is_project_detail, is_project_summary, is_project_version,
  is_session_metadata, is_upload_intent,
}
use sewn_covers.Clients.Account.Typed.{
  read_account-Fits, read_asset_access-Fits, read_auth_session-Fits, read_created_share-Fits,
  read_deleted_upload-Fits, read_export-Fits, read_project_detail-Fits, read_project_list-Fits,
  read_session_list-Fits, read_shared_configuration-Fits, read_upload-Fits, read_upload_intent-Fits,
  read_upload_list-Fits, read_version-Fits, read_version_list-Fits,
}

abbrev pub account_result : AccountCall → Shape
account_result (register _ _) = is_auth_session
account_result (login _ _) = is_auth_session
account_result (current _) = is_account
account_result (logout _) = is_undefined
account_result (logout_all _) = is_undefined
account_result (sessions _) = is_array is_session_metadata
account_result (export _) = is_object
account_result (revoke_session _ _) = is_undefined
account_result (delete_account _ _) = is_object

abbrev pub project_result : ProjectCall → Shape
project_result (list_projects _) = is_array is_project_summary
project_result (create_project _ _ _) = is_project_detail
project_result (get_project _ _) = is_project_detail
project_result (rename_project _ _ _) = is_project_detail
project_result (delete_project _ _) = is_undefined
project_result (list_versions _ _) = is_array is_project_version
project_result (get_version _ _ _) = is_project_version
project_result (create_version _ _ _) = is_project_version
project_result (create_share _ _ _) = is_created_share
project_result (revoke_share _ _ _) = is_undefined
project_result (restore_share _) =
    is_interface (("configuration", is_project_configuration_request) ∷ [])

abbrev pub upload_result : UploadCall → Shape
upload_result (list_uploads _) = is_array is_custom_upload
upload_result (create_upload_intent _ _ _ _) = is_upload_intent
upload_result (get_upload _ _) = is_custom_upload
upload_result (confirm_upload _ _ _) = is_custom_upload
upload_result (rename_upload _ _ _) = is_custom_upload
upload_result (retry_upload _ _) = is_custom_upload
upload_result (delete_upload _ _) = is_interface (
    ("id", is_string)
    ∷ ("state", is_literal (codes "deleted"))
    ∷ ("referencedByVersions", is_number)
    ∷ [])
upload_result (asset_access _ _ _) = is_asset_access

module _ (encode : Text → Text) (number_text : Num → Text) where
  pub account_call-IsTyped :
      (c : AccountCall) → IsTyped (account_call encode number_text c) (account_result c)
  unfolding account_call is_undefined
  account_call-IsTyped (register _ _) = parses _ refl refl read_auth_session-Fits
  account_call-IsTyped (login _ _) = parses _ refl refl read_auth_session-Fits
  account_call-IsTyped (current _) = parses _ refl refl read_account-Fits
  account_call-IsTyped (logout _) = drops refl refl
  account_call-IsTyped (logout_all _) = drops refl refl
  account_call-IsTyped (sessions _) = parses _ refl refl read_session_list-Fits
  account_call-IsTyped (export _) = parses _ refl refl read_export-Fits
  account_call-IsTyped (revoke_session _ _) = drops refl refl
  account_call-IsTyped (delete_account _ _) = parses _ refl refl read_export-Fits

  pub account_call-sendable :
      (c : AccountCall) → is_sendable (account_call encode number_text c) ≡ true
  unfolding account_call is_sendable is_undefined
  account_call-sendable (register _ _) = refl
  account_call-sendable (login _ _) = refl
  account_call-sendable (current _) = refl
  account_call-sendable (logout _) = refl
  account_call-sendable (logout_all _) = refl
  account_call-sendable (sessions _) = refl
  account_call-sendable (export _) = refl
  account_call-sendable (revoke_session _ _) = refl
  account_call-sendable (delete_account _ _) = refl

  pub project_call-IsTyped :
      (c : ProjectCall) → IsTyped (project_call encode number_text c) (project_result c)
  unfolding project_call is_undefined
  project_call-IsTyped (list_projects _) = parses _ refl refl read_project_list-Fits
  project_call-IsTyped (create_project _ _ _) = parses _ refl refl read_project_detail-Fits
  project_call-IsTyped (get_project _ _) = parses _ refl refl read_project_detail-Fits
  project_call-IsTyped (rename_project _ _ _) = parses _ refl refl read_project_detail-Fits
  project_call-IsTyped (delete_project _ _) = drops refl refl
  project_call-IsTyped (list_versions _ _) = parses _ refl refl read_version_list-Fits
  project_call-IsTyped (get_version _ _ _) = parses _ refl refl read_version-Fits
  project_call-IsTyped (create_version _ _ _) = parses _ refl refl read_version-Fits
  project_call-IsTyped (create_share _ _ _) = parses _ refl refl read_created_share-Fits
  project_call-IsTyped (revoke_share _ _ _) = drops refl refl
  project_call-IsTyped (restore_share _) = parses _ refl refl read_shared_configuration-Fits

  pub project_call-sendable :
      (c : ProjectCall) → is_sendable (project_call encode number_text c) ≡ true
  unfolding project_call is_sendable is_undefined
  project_call-sendable (list_projects _) = refl
  project_call-sendable (create_project _ _ _) = refl
  project_call-sendable (get_project _ _) = refl
  project_call-sendable (rename_project _ _ _) = refl
  project_call-sendable (delete_project _ _) = refl
  project_call-sendable (list_versions _ _) = refl
  project_call-sendable (get_version _ _ _) = refl
  project_call-sendable (create_version _ _ _) = refl
  project_call-sendable (create_share _ _ _) = refl
  project_call-sendable (revoke_share _ _ _) = refl
  project_call-sendable (restore_share _) = refl

  pub upload_call-IsTyped :
      (c : UploadCall) → IsTyped (upload_call encode number_text c) (upload_result c)
  unfolding upload_call is_undefined
  upload_call-IsTyped (list_uploads _) = parses _ refl refl read_upload_list-Fits
  upload_call-IsTyped (create_upload_intent _ _ _ _) = parses _ refl refl read_upload_intent-Fits
  upload_call-IsTyped (get_upload _ _) = parses _ refl refl read_upload-Fits
  upload_call-IsTyped (confirm_upload _ _ _) = parses _ refl refl read_upload-Fits
  upload_call-IsTyped (rename_upload _ _ _) = parses _ refl refl read_upload-Fits
  upload_call-IsTyped (retry_upload _ _) = parses _ refl refl read_upload-Fits
  upload_call-IsTyped (delete_upload _ _) = parses _ refl refl read_deleted_upload-Fits
  upload_call-IsTyped (asset_access _ _ _) = parses _ refl refl read_asset_access-Fits

  pub upload_call-sendable :
      (c : UploadCall) → is_sendable (upload_call encode number_text c) ≡ true
  unfolding upload_call is_sendable is_undefined
  upload_call-sendable (list_uploads _) = refl
  upload_call-sendable (create_upload_intent _ _ _ _) = refl
  upload_call-sendable (get_upload _ _) = refl
  upload_call-sendable (confirm_upload _ _ _) = refl
  upload_call-sendable (rename_upload _ _ _) = refl
  upload_call-sendable (retry_upload _ _) = refl
  upload_call-sendable (delete_upload _ _) = refl
  upload_call-sendable (asset_access _ _ _) = refl
