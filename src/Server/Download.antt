-- ===== src/Server/Download.antt =====
-- `handle_lfs_download_request` of src/server/request.rs, with the calls that it makes of the
-- database, and what the provider, the database and the storage answer.
pub mod Answered
pub mod Calls
mod Tests
use lfs_cloud.Prelude.{ℕ, true, Option, none, some, [], ◌∷◌, List, Result, ok, err}
use lfs_cloud.Prelude.Text.{Text, codes}
use lfs_cloud.Errors.{ServerError}
use lfs_cloud.Lfs.Oid.{LfsOid, LfsObject}
use lfs_cloud.Server.Batch.Response.{
  Response, git_lfs_json_error_response, git_lfs_authorization_error_response,
  git_lfs_download_storage_error_response, git_lfs_storage_error_response_parts,
}
use lfs_cloud.Server.Batch.Lookup.{StoredObject}
use lfs_cloud.Server.Upload.{Call, start, finish}
use lfs_cloud.Server.Upload.Refusals.{
  MetadataTransferResult, succeeded, failed, server_error_log_category,
  transfer_request_expected_size,
}

-- `download_object_response` gives the stored object and the response with its verified bytes.
pub record DownloadServices : Type 0 where
  pub authorize : Result ServerError (Unit {0})
  pub start_transfer_attempt : Result ServerError (Option ℕ)
  pub download_object_response : LfsObject → Result ServerError (StoredObject × Response)
  pub finish_transfer_attempt : Result ServerError (Unit {0})

abbrev pub download_failure : ServerError → MetadataTransferResult
download_failure e =
    failed (server_error_log_category e) (git_lfs_storage_error_response_parts e true).1

abbrev pub recorded_or_error : Response → Result ServerError (Unit {0}) → Response
recorded_or_error response (ok _) = response
recorded_or_error response (err e) = git_lfs_download_storage_error_response e

abbrev pub after_download :
    DownloadServices
    → Option ℕ
    → Result ServerError (StoredObject × Response)
    → Response × List Call
after_download services attempt (ok (stored, response)) = (
  recorded_or_error response services.finish_transfer_attempt,
  finish attempt (succeeded (some stored.backend_id)) ∷ [],
)
after_download services attempt (err e) =
    (git_lfs_download_storage_error_response e, finish attempt (download_failure e) ∷ [])

abbrev pub download_started :
    DownloadServices → LfsObject → Result ServerError (Option ℕ) → Response × List Call
download_started services object (err e) =
    (git_lfs_download_storage_error_response e, start object ∷ [])
download_started services object (ok attempt) =
    let (response, calls) =
      after_download services attempt (services.download_object_response object) in
    (response, start object ∷ calls)

abbrev pub download_authorized :
    DownloadServices → LfsObject → Result ServerError (Unit {0}) → Response × List Call
download_authorized services object (err e) = (git_lfs_authorization_error_response e, [])
download_authorized services object (ok _) =
    download_started services object services.start_transfer_attempt

abbrev pub download_sized : DownloadServices → LfsOid → Result ServerError ℕ → Response × List Call
download_sized services oid (err _) = (
  git_lfs_json_error_response 400
      (codes "Git LFS download action did not include a valid size query parameter"),
  [],
)
download_sized services oid (ok size) =
    download_authorized services (record { oid = oid; size = size }) services.authorize

unfoldable pub handle_lfs_download_request :
    (Text → Text) → DownloadServices → LfsOid → Option (List (Text × Text)) → Response × List Call
handle_lfs_download_request debug services oid query =
    download_sized services oid (transfer_request_expected_size debug query (codes "download"))
