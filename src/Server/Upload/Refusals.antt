-- ===== src/Server/Upload/Refusals.antt =====
-- The size that an upload request of src/server/request.rs declares, and the answers to an upload
-- that is refused, with the failure that the attempt is finished with.
use lfs_cloud.Prelude.{
  ℕ, false, Option, none, some, [], ◌∷◌, ◌++◌, List, if◌then◌else◌, Result, ok, err,
}
use lfs_cloud.Prelude.Text.{Text, codes, text_eq}
use lfs_cloud.Prelude.Decimal.{from_str, to_string, ParseIntError}
use lfs_cloud.Errors.{ServerError, StorageError, ErrorCategory, invalid_request}
use lfs_cloud.Sessions.{LfsSessionMetadata}
use lfs_cloud.Server.Batch.Response.{
  Response, empty, git_lfs_json_error_response, git_lfs_storage_error_response,
  git_lfs_storage_error_response_parts,
}
use lfs_cloud.Server.Batch.Handler.{upload_payload_too_large_response}
use lfs_cloud.Server.Staging.Coordinator.{
  UploadStagingError, payload_too_large, concurrency_limit, insufficient_temp_space, timed_out,
  storage,
}

pub data MetadataTransferResult : Type 0 where
  succeeded : Option Text → MetadataTransferResult
  failed : ErrorCategory → Text → MetadataTransferResult

abbrev pub size_or_invalid : Text → Result ParseIntError ℕ → Result ServerError ℕ
size_or_invalid invalid (ok size) = ok size
size_or_invalid invalid (err _) = err (invalid_request invalid)

-- `form_urlencoded::parse` has made `query` of the query of the URI; `debug` is `{:?}` of a text.
unfoldable pub find_size : (Text → Text) → Text → List (Text × Text) → Result ServerError ℕ
find_size debug action [] =
    err (invalid_request (action ++ codes " action missing size query parameter"))
find_size debug action ((key, value) ∷ query) =
    let rest = find_size debug action query in
    let invalid = codes "invalid " ++ action ++ codes " size query value " ++ debug value in
    if text_eq key (codes "size") then size_or_invalid invalid (from_str value) else rest

unfoldable pub transfer_request_expected_size :
    (Text → Text) → Option (List (Text × Text)) → Text → Result ServerError ℕ
transfer_request_expected_size debug none action =
    err (invalid_request (action ++ codes " action missing size query parameter"))
transfer_request_expected_size debug (some query) action = find_size debug action query

abbrev pub upload_staging_principal : LfsSessionMetadata → Text
upload_staging_principal m = elim m.stable_id [
  | some stable_id ↦ m.provider_id ++ codes ":id:" ++ stable_id
  | none ↦ m.provider_id ++ codes ":login:" ++ m.login
]

abbrev pub server_error_log_category : ServerError → ErrorCategory
server_error_log_category (ServerError.repository_provider _) = ErrorCategory.repository_provider
server_error_log_category (ServerError.storage _) = ErrorCategory.storage
server_error_log_category _ = ErrorCategory.server

abbrev pub failure : ServerError → MetadataTransferResult
failure e = failed (server_error_log_category e) (git_lfs_storage_error_response_parts e false).1

abbrev pub ok_response : Response
ok_response = record { status = 200; headers = []; body = empty }

abbrev pub upload_temp_space_exhausted_response : Response
upload_temp_space_exhausted_response =
    git_lfs_json_error_response 507
      (codes "Git LFS upload staging directory does not have enough free space")

abbrev pub upload_staging_timeout_response : Response
upload_staging_timeout_response =
    git_lfs_json_error_response 408
      (codes "Git LFS upload request timed out while reading the object body")

abbrev pub upload_staging_overloaded_response : Response
upload_staging_overloaded_response =
    let response =
      git_lfs_json_error_response 503
        (codes "Git LFS upload staging has reached its concurrency limit") in
    record {
      status = response.status;
      headers = response.headers ++ (codes "retry-after", codes "1") ∷ [];
      body = response.body;
    }

-- Response and recorded failure of an upload that could not be staged.
unfoldable pub staging_refusal : UploadStagingError → Response × MetadataTransferResult
staging_refusal payload_too_large = (
  upload_payload_too_large_response,
  failed ErrorCategory.storage
      (codes "Git LFS upload object exceeds the configured request size limit"),
)
staging_refusal (insufficient_temp_space _ _) = (
  upload_temp_space_exhausted_response,
  failed ErrorCategory.storage
      (codes "Git LFS upload staging directory does not have enough free space"),
)
staging_refusal timed_out = (
  upload_staging_timeout_response,
  failed ErrorCategory.storage
      (codes "Git LFS upload request timed out while reading the object body"),
)
staging_refusal concurrency_limit = (
  upload_staging_overloaded_response,
  failed ErrorCategory.storage (codes "Git LFS upload staging has reached its concurrency limit"),
)
staging_refusal (storage e) =
    (git_lfs_storage_error_response (ServerError.storage e), failure (ServerError.storage e))

unfoldable pub into_storage_error : UploadStagingError → StorageError
into_storage_error payload_too_large =
    StorageError.quota_exceeded (codes "lfscloud")
      (codes "upload object exceeded request size limit")
into_storage_error concurrency_limit =
    StorageError.retryable (codes "lfscloud") (codes "upload staging concurrency limit reached")
into_storage_error (insufficient_temp_space (some required) (some available)) =
    StorageError.quota_exceeded (codes "lfscloud") (
      codes "upload staging directory has "
      ++ to_string available
      ++ codes " bytes available but requires "
      ++ to_string required
      ++ codes " bytes")
into_storage_error (insufficient_temp_space none (some available)) =
    StorageError.quota_exceeded (codes "lfscloud") (
      codes "upload staging directory has "
      ++ to_string available
      ++ codes " bytes available but required space exceeds supported size")
into_storage_error (insufficient_temp_space _ none) =
    StorageError.quota_exceeded (codes "lfscloud")
      (codes "upload staging directory does not have enough free space")
into_storage_error timed_out =
    StorageError.retryable (codes "lfscloud") (codes "upload request body timed out while reading")
into_storage_error (storage e) = e

-- The same for an upload that gets no lease.
abbrev pub admission_refusal : UploadStagingError → Response × MetadataTransferResult
admission_refusal concurrency_limit = staging_refusal concurrency_limit
admission_refusal e =
    let error = ServerError.storage (into_storage_error e) in
    (git_lfs_storage_error_response error, failure error)
