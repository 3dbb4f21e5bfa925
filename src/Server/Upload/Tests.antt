-- ===== src/Server/Upload/Tests.antt =====
-- An upload request at work, and the theorems on uploads at it.
use lfs_cloud.Prelude.{true, Option, none, some, [], ◌∷◌, List, ok}
use lfs_cloud.Prelude.Text.{Text, codes}
use lfs_cloud.Sessions.{LfsSessionMetadata}
use lfs_cloud.Lfs.Oid.{LfsOid, LfsObject}
use lfs_cloud.Server.Staging.World.{start}
use lfs_cloud.Server.Staging.Body.{Bytes, chunk}
use lfs_cloud.Server.Staging.Stage.{Environment, available}
use lfs_cloud.Server.Upload
use lfs_cloud.Server.Upload.{Services, Outcome, Call, store, finish}
use lfs_cloud.Server.Upload.Refusals.{succeeded, ok_response}

abbrev debug : Text → Text
debug s = s

abbrev digest : Bytes → Text
digest contents = codes "aa"

abbrev oid : LfsOid
oid = record { hex = codes "aa" }

abbrev object : LfsObject
object = record { oid = oid; size = 3 }

abbrev session : LfsSessionMetadata
session = record {
  provider_id = codes "github";
  login = codes "octocat";
  stable_id = some (codes "1");
  granted_scopes = [];
  issued_at = 0;
  expires_at = 60;
}

abbrev environment : Environment
environment = record {
  temp_file_error = none;
  path = codes "/tmp/lfscloud-upload-1";
  has_parent = true;
  space = available 100_000_000;
  reopen_error = none;
  body = chunk (7 ∷ []) none ∷ chunk (8 ∷ 9 ∷ []) none ∷ [];
  flush_error = none;
}

abbrev services : Services
services = record {
  authorize = ok tt;
  start_transfer_attempt = ok (some 5);
  durable_lock = some (ok tt);
  lookup_object = ok none;
  record_verified_object = ok tt;
  upload_object = ok (record {
    provider_id = codes "drive";
    repository_namespace = codes "r";
    object = object;
    backend_id = codes "b1";
  });
  finish_transfer_attempt = ok tt;
}

abbrev query : Option (List (Text × Text))
query = some ((codes "size", codes "3") ∷ [])

abbrev outcome : Outcome
outcome = (
  ok_response,
  record {
    global_slots = 2;
    per_user_limit = 2;
    per_user_slots = record { principal = codes "github:id:1"; permits = 2; strong = 0 } ∷ [];
    reservations = record { available_space_snapshot = none; reserved_bytes = 0 };
  },
  Upload.start object
      ∷ store object (7 ∷ 8 ∷ 9 ∷ [])
      ∷ finish (some 5) (succeeded (some (codes "b1")))
      ∷ [],
)
