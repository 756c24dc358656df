-- ===== src/Clients/Account/Calls.antt =====
-- `accountApi` of frontend/services/account-api.ts.
use sewn_covers.Prelude.{String, none, some, ◌++◌}
use sewn_covers.Number.{Num}
use sewn_covers.Text.{Text, codes}
use sewn_covers.Value.{Value, undef, null, str, num, obj, field, end}
use sewn_covers.Clients.Http.{delete, patch, post}
use sewn_covers.Clients.Request.{Call}
use sewn_covers.Clients.Calling.{sending, reading, emptying}
use sewn_covers.Clients.Account.Tables.{
  read_account, read_auth_session, read_session_list, read_export, read_project_list,
  read_project_detail, read_version_list, read_version, read_created_share,
  read_shared_configuration, read_upload_list, read_upload_intent, read_upload, read_deleted_upload,
  read_asset_access,
}

pub data AccountCall : Type 0 where
  register login : (email password : Text) → AccountCall
  current logout logout_all sessions export : (token : Text) → AccountCall
  revoke_session : (token : Text) (id : Num) → AccountCall
  delete_account : (token password : Text) → AccountCall

pub data ProjectCall : Type 0 where
  list_projects : (token : Text) → ProjectCall
  create_project : (token name : Text) (configuration : Value) → ProjectCall
  get_project delete_project list_versions : (token project : Text) → ProjectCall
  rename_project : (token project name : Text) → ProjectCall
  get_version create_share : (token project version : Text) → ProjectCall
  create_version : (token project : Text) (configuration : Value) → ProjectCall
  revoke_share : (token project grant : Text) → ProjectCall
  restore_share : (share : Text) → ProjectCall

pub data AssetKind : Type 0 where
  thumbnail tile : AssetKind

pub data UploadCall : Type 0 where
  list_uploads : (token : Text) → UploadCall
  create_upload_intent : (token label content_type : Text) (byte_size : Num) → UploadCall
  get_upload retry_upload delete_upload : (token upload : Text) → UploadCall
  confirm_upload : (token upload checksum : Text) → UploadCall
  rename_upload : (token upload label : Text) → UploadCall
  asset_access : (token upload : Text) (kind : AssetKind) → UploadCall

abbrev pub asset_kind : AssetKind → Text
asset_kind thumbnail = codes "thumbnail"
asset_kind tile = codes "tile"

abbrev one_field : String → Value → Value
one_field key value = obj (field key value end)

abbrev credentials : Text → Text → Value
credentials email password = obj (field "email" (str email) (field "password" (str password) end))

abbrev upload_body : Text → Text → Num → Value
upload_body label content_type byte_size = obj (
    field "label" (str label) (
      field "contentType" (str content_type)
        (field "byteSize" (num byte_size) (field "crop" null end))))

-- `encodeURIComponent`, and the text of a number.
module _ (encode : Text → Text) (number_text : Num → Text) where
  abbrev pub project_path : Text → Text
  project_path project = codes "/projects/" ++ encode project

  abbrev pub versions_path : Text → Text
  versions_path project = project_path project ++ codes "/versions"

  abbrev pub version_path : Text → Text → Text
  version_path project version = versions_path project ++ codes "/" ++ encode version

  abbrev pub upload_path : Text → Text
  upload_path upload = codes "/uploads/" ++ encode upload

  unfoldable pub account_call : AccountCall → Call
  account_call (register email password) =
      sending post none (codes "/auth/register") (credentials email password) read_auth_session
  account_call (login email password) =
      sending post none (codes "/auth/login") (credentials email password) read_auth_session
  account_call (current token) = reading (some token) (codes "/account") read_account
  account_call (logout token) = emptying post token (codes "/auth/logout")
  account_call (logout_all token) = emptying post token (codes "/auth/logout-all")
  account_call (sessions token) = reading (some token) (codes "/account/sessions") read_session_list
  account_call (revoke_session token id) =
      emptying delete token (codes "/account/sessions/" ++ number_text id)
  account_call (export token) = reading (some token) (codes "/account/export") read_export
  account_call (delete_account token password) =
      sending post (some token) (codes "/account/delete") (one_field "password" (str password))
        read_export

  unfoldable pub project_call : ProjectCall → Call
  project_call (list_projects token) = reading (some token) (codes "/projects") read_project_list
  project_call (create_project token name configuration) =
      sending post (some token) (codes "/projects")
        (obj (field "name" (str name) (field "configuration" configuration end)))
        read_project_detail
  project_call (get_project token project) =
      reading (some token) (project_path project) read_project_detail
  project_call (rename_project token project name) =
      sending patch (some token) (project_path project) (one_field "name" (str name))
        read_project_detail
  project_call (delete_project token project) = emptying delete token (project_path project)
  project_call (list_versions token project) =
      reading (some token) (versions_path project) read_version_list
  project_call (get_version token project version) =
      reading (some token) (version_path project version) read_version
  project_call (create_version token project configuration) =
      sending post (some token) (versions_path project) (one_field "configuration" configuration)
        read_version
  project_call (create_share token project version) =
      sending post (some token) (version_path project version ++ codes "/shares") undef
        read_created_share
  project_call (revoke_share token project grant) =
      emptying delete token (project_path project ++ codes "/shares/" ++ encode grant)
  project_call (restore_share share) =
      reading none (codes "/shares/" ++ encode share) read_shared_configuration

  unfoldable pub upload_call : UploadCall → Call
  upload_call (list_uploads token) = reading (some token) (codes "/uploads") read_upload_list
  upload_call (create_upload_intent token label content_type byte_size) =
      sending post (some token) (codes "/uploads") (upload_body label content_type byte_size)
        read_upload_intent
  upload_call (get_upload token upload) = reading (some token) (upload_path upload) read_upload
  upload_call (confirm_upload token upload checksum) =
      sending post (some token) (upload_path upload ++ codes "/complete")
        (one_field "checksum" (str checksum)) read_upload
  upload_call (rename_upload token upload label) =
      sending patch (some token) (upload_path upload) (one_field "label" (str label)) read_upload
  upload_call (retry_upload token upload) =
      sending post (some token) (upload_path upload ++ codes "/retry") undef read_upload
  upload_call (delete_upload token upload) =
      sending delete (some token) (upload_path upload) undef read_deleted_upload
  upload_call (asset_access token upload kind) =
      sending post (some token)
        (upload_path upload ++ codes "/assets/" ++ asset_kind kind ++ codes "/access") undef
        read_asset_access
