-- ===== src/Server/Download/Tests.antt =====
-- A download request at work, and the theorems on downloads at it.
use lfs_cloud.Prelude.{◌≡◌, refl, Option, some, [], ◌∷◌, List, ok, arith}
use lfs_cloud.Prelude.Text.{Text, codes, text_eq}
use lfs_cloud.Prelude.Decimal.{from_str}
use lfs_cloud.Lfs.Oid.{LfsOid}
use lfs_cloud.Server.Upload.Refusals.{find_size, transfer_request_expected_size, ok_response}
use lfs_cloud.Server.Download.{DownloadServices, handle_lfs_download_request}
use lfs_cloud.Server.Download.Answered.{Served, handle_download-Served}

abbrev debug : Text → Text
debug s = s

abbrev oid : LfsOid
oid = record { hex = codes "aa" }

abbrev services : DownloadServices
services = record {
  authorize = ok tt;
  start_transfer_attempt = ok (some 5);
  download_object_response = λ o. ok (
    record {
      provider_id = codes "drive";
      repository_namespace = codes "r";
      object = o;
      backend_id = codes "b1";
    },
    ok_response,
  );
  finish_transfer_attempt = ok tt;
}

abbrev query : Option (List (Text × Text))
query = some ((codes "size", codes "12") ∷ [])

answered-query : (handle_lfs_download_request debug services oid query).0 ≡ ok_response
unfolding handle_lfs_download_request transfer_request_expected_size find_size from_str text_eq
answered-query = refl

handle_download-Served_example :
    Served services oid
      (transfer_request_expected_size debug query (codes "download"))
      (handle_lfs_download_request debug services oid query).0
handle_download-Served_example =
    handle_download-Served debug services oid query (rw answered-query (omega arith))
