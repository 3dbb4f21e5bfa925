-- ===== src/Server/Upload.antt =====
-- `handle_lfs_upload_request` of src/server/request.rs. What the database, the provider and the
-- storage answer is a record of services; the calls that the handler makes of them are listed in
-- their order. `none` is a panic of the staging coordinator.
pub mod Refusals
pub mod Calls
pub mod Stored
mod Tests
use lfs_cloud.Prelude.{
  ℕ, Bool, true, false, Option, none, some, [], ◌∷◌, ◌++◌, List, ltb, if◌then◌else◌, Result, ok,
  err,
}
use lfs_cloud.Prelude.Text.{Text, codes, text_eq}
use lfs_cloud.Prelude.Decimal.{from_str, to_string, ParseIntError}
use lfs_cloud.Errors
use lfs_cloud.Errors.{ServerError, StorageError, ErrorCategory, invalid_request}
use lfs_cloud.Sessions.{LfsSessionMetadata}
use lfs_cloud.Lfs.Oid.{LfsOid, LfsObject}
use lfs_cloud.Server.Batch.Response.{
  Response, empty, git_lfs_json_error_response, git_lfs_authorization_error_response,
  git_lfs_storage_error_response, git_lfs_storage_error_response_parts,
}
use lfs_cloud.Server.Batch.Lookup.{StoredObject}
use lfs_cloud.Server.Batch.Handler.{max_upload_object_bytes, upload_payload_too_large_response}
use lfs_cloud.Server.Staging.Coordinator.{
  UploadStagingError, payload_too_large, concurrency_limit, insufficient_temp_space, timed_out,
  storage, Coordinator, Lease, try_acquire, drop_lease,
}
use lfs_cloud.Server.Staging.Body.{Bytes}
use lfs_cloud.Server.Staging.Stage.{
  Environment, Guardrails, StagedUpload, stage_upload_request_body_with_lease,
}
use lfs_cloud.Server.Upload.Refusals.{
  MetadataTransferResult, succeeded, failed, size_or_invalid, find_size,
  transfer_request_expected_size, upload_staging_principal, server_error_log_category, failure,
  ok_response, upload_temp_space_exhausted_response, upload_staging_timeout_response,
  upload_staging_overloaded_response, staging_refusal, into_storage_error, admission_refusal,
}

-- The calls with an effect outside the server.
pub data Call : Type 0 where
  start : LfsObject → Call
  -- of the attempt, if there is a database to hold it
  finish : Option ℕ → MetadataTransferResult → Call
  record_verified : LfsObject → Text → Call
  store : LfsObject → Bytes → Call

pub record Services : Type 0 where
  pub authorize : Result ServerError (Unit {0})
  pub start_transfer_attempt : Result ServerError (Option ℕ)
  -- none without a database
  pub durable_lock : Option (Result ServerError (Unit {0}))
  pub lookup_object : Result ServerError (Option StoredObject)
  pub record_verified_object : Result ServerError (Unit {0})
  pub upload_object : Result ServerError StoredObject
  pub finish_transfer_attempt : Result ServerError (Unit {0})

abbrev pub Outcome : Type 0
Outcome = Response × Coordinator × List Call

module _ (digest : Bytes → Text) (environment : Environment) (services : Services)
    (object : LfsObject) where
  -- The attempt is finished with a failure, whether or not that can be recorded.
  abbrev pub fail : Option ℕ → ServerError → Response × List Call
  fail attempt e = (git_lfs_storage_error_response e, finish attempt (failure e) ∷ [])

  abbrev pub finished : Result ServerError (Unit {0}) → Response
  finished (ok _) = ok_response
  finished (err e) = git_lfs_storage_error_response e

  abbrev pub succeed : Option ℕ → StoredObject → Response × List Call
  succeed attempt stored = (
    finished services.finish_transfer_attempt,
    finish attempt (succeeded (some stored.backend_id)) ∷ [],
  )

  abbrev pub after_upload : Option ℕ → Result ServerError StoredObject → Response × List Call
  after_upload attempt (ok stored) = succeed attempt stored
  after_upload attempt (err e) = fail attempt e

  -- The staged upload, with its lease, is dropped at the end.
  abbrev pub dropped : Response × List Call → Bytes → Option Coordinator → Option Outcome
  dropped (response, calls) contents none = none
  dropped (response, calls) contents (some c) = some (response, c, store object contents ∷ calls)

  abbrev pub after_staging :
      Option ℕ → Option (Result UploadStagingError StagedUpload × Coordinator) → Option Outcome
  after_staging attempt none = none
  after_staging attempt (some (err e, c)) =
      let (response, result) = staging_refusal e in some (response, c, finish attempt result ∷ [])
  after_staging attempt (some (ok upload, c)) =
      dropped (after_upload attempt services.upload_object) upload.contents
        (drop_lease c upload.lease)

  abbrev pub guardrails : Guardrails
  guardrails = record { max_upload_bytes = max_upload_object_bytes; min_free_bytes = 67_108_864 }

  abbrev pub after_admission :
      Option ℕ → Result UploadStagingError Lease × Coordinator → Option Outcome
  after_admission attempt (err e, c) =
      let (response, result) = admission_refusal e in some (response, c, finish attempt result ∷ [])
  after_admission attempt (ok lease, c) = after_staging attempt (
      stage_upload_request_body_with_lease digest environment object.oid (some object.size)
        guardrails c lease)

  abbrev pub at : Coordinator → Response × List Call → Option Outcome
  at c (response, calls) = some (response, c, calls)

  abbrev pub after_repair :
      Option ℕ → StoredObject → Result ServerError (Unit {0}) → Response × List Call
  after_repair attempt stored (ok _) = succeed attempt stored
  after_repair attempt stored (err e) = fail attempt e

  abbrev pub verified : StoredObject → Response × List Call → Response × List Call
  verified stored (response, calls) = (response, record_verified object stored.backend_id ∷ calls)

  -- Once the locks are held.
  abbrev pub after_lookup :
      Option ℕ → Coordinator → Text → Result ServerError (Option StoredObject) → Option Outcome
  after_lookup attempt c principal (err e) = at c (fail attempt e)
  after_lookup attempt c principal (ok (some stored)) =
      at c (verified stored (after_repair attempt stored services.record_verified_object))
  after_lookup attempt c principal (ok none) = after_admission attempt (try_acquire c principal)

  abbrev pub after_lock :
      Option ℕ → Coordinator → Text → Option (Result ServerError (Unit {0})) → Option Outcome
  after_lock attempt c principal (some (err e)) = at c (fail attempt e)
  after_lock attempt c principal _ = after_lookup attempt c principal services.lookup_object

  abbrev pub started : Option Outcome → Option Outcome
  started none = none
  started (some (response, c, calls)) = some (response, c, start object ∷ calls)

  abbrev pub after_start : Coordinator → Text → Result ServerError (Option ℕ) → Option Outcome
  after_start c principal (err e) = at c (git_lfs_storage_error_response e, [])
  after_start c principal (ok attempt) = after_lock attempt c principal services.durable_lock

  abbrev pub after_authorization :
      Coordinator → Text → Result ServerError (Unit {0}) → Option Outcome
  after_authorization c principal (err e) = at c (git_lfs_authorization_error_response e, [])
  after_authorization c principal (ok _) =
      started (after_start c principal services.start_transfer_attempt)

abbrev pub too_large : Option ℕ → Bool
too_large none = false
too_large (some size) = ltb max_upload_object_bytes size

abbrev pub sized :
    (Bytes → Text)
    → Environment
    → Services
    → LfsOid
    → LfsSessionMetadata
    → Option ℕ
    → Coordinator
    → Result ServerError ℕ
    → Option Outcome
sized digest environment services oid session declared_size c (err _) = some (
  git_lfs_json_error_response 400
      (codes "Git LFS upload action did not include a valid size query parameter"),
  c,
  [],
)
sized digest environment services oid session declared_size c (ok expected_size) =
    if ltb max_upload_object_bytes expected_size
    then some (upload_payload_too_large_response, c, [])
    else if too_large declared_size
    then some (upload_payload_too_large_response, c, [])
    else after_authorization digest environment services
        (record { oid = oid; size = expected_size }) c (upload_staging_principal session)
        services.authorize

-- The declared size is the header `Content-Length`, if it is a number.
unfoldable pub handle_lfs_upload_request :
    (Text → Text)
    → (Bytes → Text)
    → Environment
    → Services
    → LfsOid
    → LfsSessionMetadata
    → Option (List (Text × Text))
    → Option ℕ
    → Coordinator
    → Option Outcome
handle_lfs_upload_request debug digest environment services oid session query declared_size c =
    sized digest environment services oid session declared_size c
      (transfer_request_expected_size debug query (codes "upload"))
