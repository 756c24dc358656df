-- ===== src/Clients/Account/Upload.antt =====
-- The transfer of a file in frontend/services/account-api.ts, and the addresses of assets.
use sewn_covers.Prelude.{ℕ, Bool, ◌==◌, if◌then◌else◌, Option, none, some, List, ◌++◌}
use sewn_covers.Text.{Text, codes, starts_with}
use sewn_covers.Clients.Request.{AccountApiError, plain_error, request_failed}

pub data UploadMethod : Type 0 where
  post put : UploadMethod

pub record UploadOperation : Type 0 where
  pub method : UploadMethod
  pub url : Text
  pub headers : List (Text × Text)
  pub fields : List (Text × Text)

-- The file by itself, or a form with fields before it.
pub data UploadBody (File : Type 0) : Type 0 where
  file_body : File → UploadBody File
  form_body : (fields : List (Text × Text)) → File → UploadBody File

pub record UploadFetch (File : Type 0) : Type 0 where
  pub target : Text
  pub method : UploadMethod
  pub headers : Option (List (Text × Text))
  pub body : UploadBody File

-- `fetch` throws, or answers.
pub data UploadReply : Type 0 where
  unreached : UploadReply
  reached : (status : ℕ) (is_ok : Bool) → UploadReply

-- The transfer ends, or throws an `AccountApiError` or what `fetch` throws.
pub data UploadOutcome : Type 0 where
  transferred unsent : UploadOutcome
  refused : AccountApiError → UploadOutcome

-- `url.startsWith("/") ? apiUrl + url : url`
unfoldable pub resolve_asset_url : Text → Text → Text
unfolding starts_with
resolve_asset_url api_url url = if starts_with (codes "/") url then api_url ++ url else url

abbrev too_large : AccountApiError
too_large =
    plain_error (codes "This image is larger than the 10 MB upload limit. Choose a smaller file.")
      413 (codes "payload_too_large")

abbrev untransferred : ℕ → AccountApiError
untransferred status =
    plain_error (codes "The private upload could not be transferred.") status request_failed

abbrev upload_headers : UploadOperation → UploadMethod → Option (List (Text × Text))
upload_headers operation put = some operation.headers
upload_headers operation post = none

abbrev upload_result : UploadReply → UploadOutcome
upload_result unreached = unsent
upload_result (reached status is_ok) =
    if status == 413
    then refused too_large
    else if is_ok
    then transferred
    else refused (untransferred status)

module _ {File : Type 0} where
  abbrev upload_body : UploadOperation → UploadMethod → File → UploadBody File
  upload_body operation put file = file_body file
  upload_body operation post file = form_body operation.fields file

  unfoldable pub upload_fetch : Text → UploadOperation → File → UploadFetch File
  unfolding resolve_asset_url
  upload_fetch api_url operation file = record {
    target = resolve_asset_url api_url operation.url;
    method = operation.method;
    headers = upload_headers operation operation.method;
    body = upload_body operation operation.method file;
  }

  -- `performUpload`
  unfoldable pub perform_upload :
      Text → (UploadFetch File → UploadReply) → UploadOperation → File → UploadOutcome
  unfolding upload_fetch
  perform_upload api_url fetch operation file =
      upload_result (fetch (upload_fetch api_url operation file))

-- `buildSharedAssetUrl`, and `buildProjectShareUrl` with the origin of the page and `withBasePath`.
unfoldable pub build_shared_asset_url : (Text → Text) → Text → Text → Text
build_shared_asset_url encode api_url share =
    api_url ++ codes "/shares/" ++ encode share ++ codes "/assets/tile"

unfoldable pub build_project_share_url : (Text → Text) → (Text → Text) → Text → Text → Text
build_project_share_url encode with_base_path origin token =
    origin ++ with_base_path (codes "/configure/?share=" ++ encode token)
