-- ===== src/Server/Batch/Agreement.antt =====
-- The three answers that src/server/batch.rs gives to one storage error agree.
use lfs_cloud.Prelude.{◌≤◌, ◌<◌, ◌≡◌, refl, Bool, true, false, if◌then◌else◌, arith}
use lfs_cloud.Errors.{ServerError, StorageError}
use lfs_cloud.Server.Batch.Response.{
  classify_lfs_storage_error, classify_storage, uniform_transfer_response,
  git_lfs_storage_error_response_parts, git_lfs_storage_error_response,
  git_lfs_download_storage_error_response, lfs_batch_object_error_from_server_error,
  git_lfs_json_error_response, LfsStorageErrorClassification,
}

-- `StorageError::IntegrityMismatch`
abbrev pub is_mismatch_source : StorageError → Bool
is_mismatch_source (StorageError.integrity_mismatch _ _ _ _) = true
is_mismatch_source _ = false

abbrev pub is_mismatch : ServerError → Bool
is_mismatch (ServerError.storage source) = is_mismatch_source source
is_mismatch _ = false

abbrev Agrees : LfsStorageErrorClassification → Bool → Type 0
Agrees c mismatch =
    (c.batch_code ≡ c.download_status)
    × (c.upload_status ≡ (if mismatch then 422 else c.download_status))
    × (400 ≤ c.download_status)
    × (c.download_status < 600)

classify_storage-Agrees :
    (source : StorageError) → Agrees (classify_storage source) (is_mismatch_source source)
unfolding classify_storage uniform_transfer_response
classify_storage-Agrees (StorageError.integrity_mismatch _ _ _ _) =
    (refl, refl, omega arith, omega arith)
classify_storage-Agrees (StorageError.object_not_found _ _ _) =
    (refl, refl, omega arith, omega arith)
classify_storage-Agrees (StorageError.conflict _ _) = (refl, refl, omega arith, omega arith)
classify_storage-Agrees (StorageError.quota_exceeded _ _) = (refl, refl, omega arith, omega arith)
classify_storage-Agrees (StorageError.retryable _ _) = (refl, refl, omega arith, omega arith)
classify_storage-Agrees (StorageError.unsupported _) = (refl, refl, omega arith, omega arith)
classify_storage-Agrees (StorageError.permission_denied _ _) =
    (refl, refl, omega arith, omega arith)
classify_storage-Agrees (StorageError.authentication_required _) =
    (refl, refl, omega arith, omega arith)
classify_storage-Agrees (StorageError.credential_load _ _ _) =
    (refl, refl, omega arith, omega arith)
classify_storage-Agrees _ = (refl, refl, omega arith, omega arith)

classify-Agrees : (e : ServerError) → Agrees (classify_lfs_storage_error e) (is_mismatch e)
unfolding classify_lfs_storage_error uniform_transfer_response
classify-Agrees (ServerError.storage source) = classify_storage-Agrees source
classify-Agrees _ = (refl, refl, omega arith, omega arith)

-- A batch reports an error under the status that a download of the object would have, and an upload
-- has that status too, unless the error is a mismatch of its contents: then it has 422. The status
-- is an error of the client or the server.
pub error_code-status :
    (e : ServerError)
    → let download = (git_lfs_download_storage_error_response e).status in
      ((lfs_batch_object_error_from_server_error e).code ≡ download)
      × ((git_lfs_storage_error_response e).status ≡ (if is_mismatch e then 422 else download))
      × (400 ≤ download)
      × (download < 600)
unfolding git_lfs_download_storage_error_response git_lfs_storage_error_response
    git_lfs_storage_error_response_parts git_lfs_json_error_response
    lfs_batch_object_error_from_server_error
error_code-status e = classify-Agrees e
