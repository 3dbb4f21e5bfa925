-- ===== src/Server/Batch/Handler.antt =====
-- `handle_parsed_lfs_batch_request` of src/server/batch.rs: from a parsed request to the response.
-- `none` stands for a panic.
pub mod Answers
use lfs_cloud.Prelude.{
  ℕ, Bool, true, false, not, ◌&&◌, Option, none, some, List, ltb, if◌then◌else◌, any, is_empty,
  length, Result, ok, err, ◌++◌,
}
use lfs_cloud.Prelude.Text.{Text, codes, text_eq}
use lfs_cloud.Prelude.Decimal.{to_string}
use lfs_cloud.Errors.{ServerError, RepositoryPermission}
use lfs_cloud.Errors
use lfs_cloud.Sessions.{LfsSessionToken, LfsSessionMetadata}
use lfs_cloud.Lfs.Oid.{LfsObject}
use lfs_cloud.Lfs.Batch.Url.{UrlApi}
use lfs_cloud.Lfs.Batch.{
  LfsBatchOperation, download, upload, LfsBatchRequest, LfsBatchResponse, LfsBatchDownloadObject,
  LfsBatchUploadObject, lfs_basic_transfer, download_batch, upload_batch,
}
use lfs_cloud.Server.Repository.{RepositoryMapping, route_path}
use lfs_cloud.Server.Batch.Response.{
  Response, git_lfs_json_response, git_lfs_json_error_response,
  git_lfs_authorization_error_response, git_lfs_storage_error_response,
}
use lfs_cloud.Server.Batch.Credentials.{Base64, with_session_action_authorization}
use lfs_cloud.Server.Batch.Lookup.{
  StoredObject, batch_objects_with_storage_lookup, download_batch_lookup_outcome,
  upload_batch_lookup_outcome,
}

abbrev pub max_upload_object_bytes : ℕ
max_upload_object_bytes = 5_368_709_120

pub record AuthenticatedLfsSession : Type 0 where
  pub token : LfsSessionToken
  pub metadata : LfsSessionMetadata

-- What the handler uses of `LfsServerState`: what authorization and lookups answer to this request.
pub record LfsServerState : Type 0 where
  pub max_batch_objects : ℕ
  pub authorize :
      RepositoryMapping
      → AuthenticatedLfsSession
      → LfsBatchOperation
      → Result ServerError (Unit {0})
  pub lookup_object : RepositoryMapping → LfsObject → Result ServerError (Option StoredObject)

unfoldable pub permission_required_for_batch_operation : LfsBatchOperation → RepositoryPermission
permission_required_for_batch_operation download = Errors.read
permission_required_for_batch_operation upload = Errors.write

unfoldable pub upload_payload_too_large_response : Response
upload_payload_too_large_response =
    git_lfs_json_error_response 413
      (codes "Git LFS upload object exceeds the configured request size limit")

abbrev pub is_upload : LfsBatchOperation → Bool
is_upload download = false
is_upload upload = true

unfoldable pub offers_basic : List Text → Bool
offers_basic transfers =
    if is_empty transfers
    then true
    else any (λ transfer. text_eq transfer lfs_basic_transfer) transfers

unfoldable pub has_oversized : List LfsObject → Bool
has_oversized objects = any (λ object. ltb max_upload_object_bytes object.size) objects

module _ {U : Type 0} (url : UrlApi U) (base64 : Base64) where
  -- The functions return `Ok` whatever the lookups answer.
  abbrev pub ok_download :
      Text
      → Text
      → Option (List LfsBatchDownloadObject)
      → Option (Result ServerError LfsBatchResponse)
  ok_download public_url path none = none
  ok_download public_url path (some objects) =
      some (ok (download_batch url public_url path objects))

  abbrev pub ok_upload :
      Text
      → Text
      → Option (List LfsBatchUploadObject)
      → Option (Result ServerError LfsBatchResponse)
  ok_upload public_url path none = none
  ok_upload public_url path (some objects) = some (ok (upload_batch url public_url path objects))

  unfoldable pub download_batch_response_with_storage_lookup :
      RepositoryMapping
      → LfsServerState
      → Text
      → LfsBatchRequest
      → Option (Result ServerError LfsBatchResponse)
  download_batch_response_with_storage_lookup repository state public_url request =
      ok_download public_url (route_path repository) (
        batch_objects_with_storage_lookup (state.lookup_object repository) request.objects
          download_batch_lookup_outcome)

  unfoldable pub upload_batch_response_with_storage_lookup :
      RepositoryMapping
      → LfsServerState
      → Text
      → LfsBatchRequest
      → Option (Result ServerError LfsBatchResponse)
  upload_batch_response_with_storage_lookup repository state public_url request =
      ok_upload public_url (route_path repository) (
        batch_objects_with_storage_lookup (state.lookup_object repository) request.objects
          upload_batch_lookup_outcome)

  abbrev pub respond :
      LfsSessionToken → Option (Result ServerError LfsBatchResponse) → Option Response
  respond token none = none
  respond token (some (ok response)) =
      some (git_lfs_json_response (with_session_action_authorization base64 response token))
  respond token (some (err e)) = some (git_lfs_storage_error_response e)

  abbrev pub operate :
      LfsBatchOperation
      → RepositoryMapping
      → LfsServerState
      → Text
      → LfsBatchRequest
      → Option (Result ServerError LfsBatchResponse)
  operate download = download_batch_response_with_storage_lookup
  operate upload = upload_batch_response_with_storage_lookup

  abbrev pub authorized : Result ServerError (Unit {0}) → Option Response → Option Response
  authorized (ok _) rest = rest
  authorized (err e) rest = some (git_lfs_authorization_error_response e)

  unfoldable pub handle_parsed_lfs_batch_request :
      RepositoryMapping
      → AuthenticatedLfsSession
      → LfsServerState
      → Text
      → LfsBatchRequest
      → Option Response
  handle_parsed_lfs_batch_request repository session state public_url request =
      if ltb state.max_batch_objects (length request.objects)
      then some (
          git_lfs_json_error_response 413 (
            codes "Git LFS batch contains more than "
            ++ to_string state.max_batch_objects
            ++ codes " object entries"))
      else if not (offers_basic request.transfers)
      then some (
          git_lfs_json_error_response 409
            (codes "unsupported Git LFS transfer requested; only basic is available"))
      else if is_upload request.operation && has_oversized request.objects
      then some upload_payload_too_large_response
      else authorized (state.authorize repository session request.operation)
          (respond session.token (operate request.operation repository state public_url request))
