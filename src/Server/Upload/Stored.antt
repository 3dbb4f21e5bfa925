-- ===== src/Server/Upload/Stored.antt =====
-- What upload requests of src/server/request.rs hand to the storage.
use lfs_cloud.Prelude.{◌≤◌, ◌≡◌, Option, some, All, length}
use lfs_cloud.Prelude.Text.{Text}
use lfs_cloud.Lfs.Oid.{LfsOid}
use lfs_cloud.Server.Batch.Response.{Response}
use lfs_cloud.Server.Batch.Handler.{max_upload_object_bytes}
use lfs_cloud.Server.Staging.Coordinator.{Coordinator}
use lfs_cloud.Server.Staging.Body.{Bytes, Yields}
use lfs_cloud.Server.Staging.Stage.{Environment}
use lfs_cloud.Server.Upload.{Call, store, Services, Outcome}

-- Only what the client has sent is stored, under the identifier of the request, and only if its
-- digest is that identifier and its size is the one of the request and within the limit.
abbrev pub IsVerified : (Bytes → Text) → Environment → LfsOid → Call → Type 0
IsVerified digest environment oid (store object contents) =
    (object.oid ≡ oid)
    × Yields environment.body contents
    × (digest contents ≡ oid.hex)
    × (object.size ≡ length contents)
    × (length contents ≤ max_upload_object_bytes)
IsVerified digest environment oid _ = Unit

module _ (digest : Bytes → Text) (environment : Environment) (services : Services)
    (oid : LfsOid) where
  AllVerified : Option Outcome → Type 0
  AllVerified o = (x : Outcome) → o ≡ some x → All (IsVerified digest environment oid) x.2
