-- ===== src/Server/Batch/Response.antt =====
-- The JSON responses of src/server/batch.rs and the classification of errors behind them.
use lfs_cloud.Prelude.{ℕ, ◌≤◌, Bool, true, false, [], ◌∷◌, List, ◌==◌, if◌then◌else◌, arith}
use lfs_cloud.Prelude.Text.{Text, codes}
use lfs_cloud.Errors.{RepositoryProviderError, StorageError, ServerError}
use lfs_cloud.Lfs.Batch.{LfsBatchResponse, LfsBatchObjectError}

pub data Body : Type 0 where
  json : LfsBatchResponse → Body
  -- `LfsErrorResponse`
  message : Text → Body
  -- no body, as of a bare status
  empty : Body

-- `headers` in the order of `HeaderMap::append`.
pub record Response : Type 0 where
  pub status : ℕ
  pub headers : List (Text × Text)
  pub body : Body

abbrev pub lfs_auth_challenge : Text
lfs_auth_challenge = codes "Basic realm=\"lfscloud\""

abbrev pub bearer_challenge : Text
bearer_challenge = codes "Bearer realm=\"lfscloud\""

abbrev pub git_lfs_json_content_type : Text
git_lfs_json_content_type = codes "application/vnd.git-lfs+json"

abbrev pub content_type : Text × Text
content_type = (codes "content-type", git_lfs_json_content_type)

abbrev pub challenges : List (Text × Text)
challenges =
    (codes "www-authenticate", lfs_auth_challenge)
    ∷ (codes "www-authenticate", bearer_challenge)
    ∷ []

unfoldable pub git_lfs_json_response : LfsBatchResponse → Response
git_lfs_json_response response = record {
  status = 200;
  headers = content_type ∷ [];
  body = json response;
}

unfoldable pub git_lfs_json_error_response : ℕ → Text → Response
git_lfs_json_error_response status text = record {
  status = status;
  headers = content_type ∷ [];
  body = message text;
}

abbrev pub provider_refusal : RepositoryProviderError → ℕ × Text
provider_refusal (RepositoryProviderError.authentication_required _) =
    (401, codes "repository provider authentication is required for this Git LFS operation")
provider_refusal (RepositoryProviderError.permission_denied _ _ _ _) =
    (403, codes "repository provider denied this Git LFS operation")
provider_refusal (RepositoryProviderError.sso_required _ _) =
    (403, codes "repository provider denied this Git LFS operation")
provider_refusal (RepositoryProviderError.repository_not_found _ _ _) =
    (404, codes "repository provider could not find this repository")
provider_refusal _ = (502, codes "repository provider authorization failed")

abbrev pub authorization_refusal : ServerError → ℕ × Text
authorization_refusal (ServerError.repository_provider source) = provider_refusal source
authorization_refusal (ServerError.invalid_request _) =
    (400, codes "repository authorization request was invalid")
authorization_refusal _ = (500, codes "Git LFS authorization failed")

unfoldable pub git_lfs_authorization_error_response : ServerError → Response
git_lfs_authorization_error_response e =
    let (status, text) = authorization_refusal e in
    let more = if status == 401 then challenges else [] in
    record { status = status; headers = content_type ∷ more; body = message text }

provider_refusal-status : (source : RepositoryProviderError) → 400 ≤ (provider_refusal source).0
provider_refusal-status (RepositoryProviderError.authentication_required _) = omega arith
provider_refusal-status (RepositoryProviderError.permission_denied _ _ _ _) = omega arith
provider_refusal-status (RepositoryProviderError.sso_required _ _) = omega arith
provider_refusal-status (RepositoryProviderError.repository_not_found _ _ _) = omega arith
provider_refusal-status _ = omega arith

pub refusal-status : (e : ServerError) → 400 ≤ (git_lfs_authorization_error_response e).status
unfolding git_lfs_authorization_error_response
refusal-status (ServerError.repository_provider source) = provider_refusal-status source
refusal-status (ServerError.invalid_request _) = omega arith
refusal-status _ = omega arith

-- `authentication_required_response`; the content type comes after the challenges.
unfoldable pub authentication_required_response : Response
authentication_required_response = record {
  status = 401;
  headers =
      (codes "www-authenticate", lfs_auth_challenge)
      ∷ (codes "www-authenticate", bearer_challenge)
      ∷ content_type
      ∷ [];
  body = message (codes "LFS Cloud authentication required");
}

pub record LfsStorageErrorClassification : Type 0 where
  pub upload_status : ℕ
  pub download_status : ℕ
  pub upload_message : Text
  pub download_message : Text
  pub batch_code : ℕ
  pub batch_message : Text

unfoldable pub uniform_transfer_response : ℕ → Text → ℕ → Text → LfsStorageErrorClassification
uniform_transfer_response status text batch_code batch_text = record {
  upload_status = status;
  download_status = status;
  upload_message = text;
  download_message = text;
  batch_code = batch_code;
  batch_message = batch_text;
}

unfoldable pub classify_storage : StorageError → LfsStorageErrorClassification
unfolding uniform_transfer_response
classify_storage (StorageError.integrity_mismatch _ _ _ _) = record {
  upload_status = 422;
  download_status = 502;
  upload_message = codes "uploaded Git LFS object did not match the requested OID or size";
  download_message = codes "Git LFS storage returned an object that failed integrity validation";
  batch_code = 502;
  batch_message = codes "object storage lookup failed";
}
classify_storage (StorageError.object_not_found _ _ _) =
    uniform_transfer_response 404 (codes "Git LFS object was not found") 404
      (codes "object not found")
classify_storage (StorageError.conflict _ _) =
    uniform_transfer_response 409 (codes "Git LFS storage reported an object conflict") 409
      (codes "object storage conflict")
classify_storage (StorageError.quota_exceeded _ _) =
    uniform_transfer_response 507 (codes "Git LFS storage quota was exceeded") 507
      (codes "object storage quota exceeded")
classify_storage (StorageError.retryable _ _) =
    uniform_transfer_response 503 (codes "Git LFS storage operation can be retried later") 503
      (codes "object storage lookup can be retried later")
classify_storage (StorageError.permission_denied _ _) =
    uniform_transfer_response 502 (codes "Git LFS storage access was denied") 502
      (codes "object storage access was denied")
classify_storage (StorageError.authentication_required _) =
    uniform_transfer_response 502 (codes "Git LFS storage authentication failed") 502
      (codes "object storage authentication failed")
classify_storage (StorageError.credential_load _ _ _) =
    uniform_transfer_response 502 (codes "Git LFS storage authentication failed") 502
      (codes "object storage authentication failed")
classify_storage (StorageError.unsupported _) =
    uniform_transfer_response 501 (codes "Git LFS storage transfer handling is not configured") 501
      (codes "object storage lookup is not configured")
classify_storage _ =
    uniform_transfer_response 502 (codes "Git LFS storage operation failed") 502
      (codes "object storage lookup failed")

unfoldable pub classify_lfs_storage_error : ServerError → LfsStorageErrorClassification
unfolding uniform_transfer_response
classify_lfs_storage_error (ServerError.storage source) = classify_storage source
classify_lfs_storage_error _ =
    uniform_transfer_response 500 (codes "Git LFS transfer handling failed") 500
      (codes "object availability lookup failed")

unfoldable pub git_lfs_storage_error_response_parts : ServerError → Bool → ℕ × Text
git_lfs_storage_error_response_parts e download =
    let c = classify_lfs_storage_error e in
    if download
    then (c.download_status, c.download_message)
    else (c.upload_status, c.upload_message)

unfoldable pub git_lfs_storage_error_response : ServerError → Response
git_lfs_storage_error_response e =
    let (status, text) = git_lfs_storage_error_response_parts e false in
    git_lfs_json_error_response status text

unfoldable pub git_lfs_download_storage_error_response : ServerError → Response
git_lfs_download_storage_error_response e =
    let (status, text) = git_lfs_storage_error_response_parts e true in
    git_lfs_json_error_response status text

unfoldable pub lfs_batch_object_error_from_server_error : ServerError → LfsBatchObjectError
lfs_batch_object_error_from_server_error e =
    let c = classify_lfs_storage_error e in
    record { code = c.batch_code; message = c.batch_message }
