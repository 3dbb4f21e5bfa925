-- ===== src/Lfs/Batch.antt =====
-- The batch API of src/lfs.rs: requests, responses, and what the server answers for an object.
pub mod Url
use lfs_cloud.Prelude.{ℕ, Bool, true, Option, none, some, [], ◌∷◌, List, map}
use lfs_cloud.Prelude.Text.{Text, codes}
use lfs_cloud.Prelude.BTreeMap.{BTreeMap, insert}
use lfs_cloud.Lfs.Oid.{LfsOid, LfsObject}
use lfs_cloud.Lfs.Batch.Url.{UrlApi, lfs_object_transfer_action_url}

pub data LfsBatchOperation : Type 0 where
  download upload : LfsBatchOperation

pub data LfsBatchHashAlgorithm : Type 0 where
  sha256 : LfsBatchHashAlgorithm

-- `ref_context` is the name of the ref, if there is one.
pub record LfsBatchRequest : Type 0 where
  pub operation : LfsBatchOperation
  pub transfers : List Text
  pub ref_context : Option Text
  pub hash_algo : LfsBatchHashAlgorithm
  pub objects : List LfsObject

-- `expires_in` is an i64 that the server never sets.
pub record LfsBatchAction : Type 0 where
  pub href : Text
  pub header : BTreeMap Text
  pub expires_at : Option Text
  pub expires_in : Option ℕ

pub record LfsBatchObjectError : Type 0 where
  pub code : ℕ
  pub message : Text

pub record LfsBatchObjectResponse : Type 0 where
  pub oid : LfsOid
  pub size : ℕ
  pub authenticated : Option Bool
  pub actions : BTreeMap LfsBatchAction
  pub error : Option LfsBatchObjectError

pub record LfsBatchResponse : Type 0 where
  pub transfer : Text
  pub objects : List LfsBatchObjectResponse

pub data LfsBatchDownloadObject : Type 0 where
  available missing : LfsObject → LfsBatchDownloadObject
  error : LfsObject → LfsBatchObjectError → LfsBatchDownloadObject

pub data LfsBatchUploadObject : Type 0 where
  needed present : LfsObject → LfsBatchUploadObject
  error : LfsObject → LfsBatchObjectError → LfsBatchUploadObject

abbrev pub lfs_basic_transfer : Text
lfs_basic_transfer = codes "basic"

-- `LfsBatchAction::new`
abbrev pub action_to : Text → LfsBatchAction
action_to href = record { href = href; header = []; expires_at = none; expires_in = none }

unfoldable pub with_actions : LfsObject → Bool → BTreeMap LfsBatchAction → LfsBatchObjectResponse
with_actions object authenticated actions = record {
  oid = object.oid;
  size = object.size;
  authenticated = some authenticated;
  actions = actions;
  error = none;
}

unfoldable pub with_error : LfsObject → LfsBatchObjectError → LfsBatchObjectResponse
with_error object e = record {
  oid = object.oid;
  size = object.size;
  authenticated = none;
  actions = [];
  error = some e;
}

module _ {U : Type 0} (url : UrlApi U) where
  unfoldable pub download_response : Text → Text → LfsBatchDownloadObject → LfsBatchObjectResponse
  download_response public_url path (available object) =
      let href = lfs_object_transfer_action_url url public_url path object in
      with_actions object true (insert (codes "download") (action_to href) [])
  download_response public_url path (missing object) =
      with_error object (record { code = 404; message = codes "object not found" })
  download_response public_url path (error object e) = with_error object e

  unfoldable pub upload_response : Text → Text → LfsBatchUploadObject → LfsBatchObjectResponse
  upload_response public_url path (needed object) =
      let href = lfs_object_transfer_action_url url public_url path object in
      with_actions object true (insert (codes "upload") (action_to href) [])
  upload_response public_url path (present object) = record {
    oid = object.oid;
    size = object.size;
    authenticated = none;
    actions = [];
    error = none;
  }
  upload_response public_url path (error object e) = with_error object e

  -- `LfsBatchResponse::download` and `LfsBatchResponse::upload`
  unfoldable pub download_batch : Text → Text → List LfsBatchDownloadObject → LfsBatchResponse
  download_batch public_url path objects = record {
    transfer = lfs_basic_transfer;
    objects = map (download_response public_url path) objects;
  }

  unfoldable pub upload_batch : Text → Text → List LfsBatchUploadObject → LfsBatchResponse
  upload_batch public_url path objects = record {
    transfer = lfs_basic_transfer;
    objects = map (upload_response public_url path) objects;
  }
