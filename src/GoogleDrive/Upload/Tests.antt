-- ===== src/GoogleDrive/Upload/Tests.antt =====
-- An upload at work, and the theorems on uploads at concrete answers of Drive.
use lfs_cloud.Prelude.{
  ℕ, zero, suc, ◌≡◌, refl, false, Option, none, some, [], ◌∷◌, ◌++◌, List, if◌then◌else◌, ok, arith,
  take, drop,
}
use lfs_cloud.Prelude.Text.{
  Text, codes, len, text_eq, trim, trim_start, is_whitespace, strip_prefix,
}
use lfs_cloud.Prelude.Decimal.{from_str, to_string}
use lfs_cloud.Errors.{retryable}
use lfs_cloud.Lfs.Oid.{LfsObject}
use lfs_cloud.Server.Batch.Lookup.{StoredObject}
use lfs_cloud.GoogleDrive.ObjectKey.{GoogleDriveObjectKey, file_name, namespace_property, pairs}
use lfs_cloud.GoogleDrive.Upload.{
  missing, text, Answer, unsent, response, Upload, parse_drive_upload_success,
  parse_drive_resumable_upload_offset, parse_drive_resumable_upload_response,
  recover_drive_resumable_upload, send_chunk, upload_from, upload_verified_object,
}
use lfs_cloud.GoogleDrive.Upload.Verification.{
  GoogleDriveObjectFile, have_properties, verify_drive_object_file,
}
use lfs_cloud.GoogleDrive.Upload.Rounds.{Ends, upload_verified_object-Ends}
use lfs_cloud.GoogleDrive.Upload.Aliases.{in_namespace, verify_drive_object_file-in_namespace}

abbrev drive : Text
drive = codes "google_drive"

abbrev object : LfsObject
object = record { oid = record { hex = codes "aa" }; size = 3 }

abbrev key : GoogleDriveObjectKey
key = record { repo_namespace = codes "art"; object = object }

-- The property that a list of pairs gives.
abbrev property_of : List (Text × Text) → Text → Option Text
property_of [] name = none
property_of ((k, v) ∷ ps) name = if text_eq k name then some v else property_of ps name

abbrev file_of : List (Text × Text) → GoogleDriveObjectFile
file_of ps = record {
  id = some (codes "f1");
  name = some (codes "sha256-aa-3.lfs");
  size = some (codes "3");
  trashed = false;
  app_properties = property_of ps;
}

-- The answer to the first chunk commits a byte, that to the second is lost, a probe finds two bytes
-- committed, and the last chunk completes the file.
abbrev answer : ℕ → Answer
answer zero = response 308 (text (codes "bytes=0-0")) (ok [])
answer (suc zero) = unsent (retryable drive (codes "timeout"))
answer (suc (suc zero)) = response 308 (text (codes "bytes=0-1")) (ok [])
answer _ = response 200 missing (ok (codes "{}"))

abbrev upload : Upload
upload = record {
  provider = drive;
  key = key;
  expected_properties = pairs (λ s. s) key;
  contents = 7 ∷ 8 ∷ 9 ∷ [];
  file_from_json = λ _. some (file_of (pairs (λ s. s) key));
  diagnose = λ body. record { message = body; reasons = [] };
  answers = answer;
  reads = λ _. none;
}

abbrev stored : StoredObject
stored = record {
  provider_id = drive;
  repository_namespace = codes "art";
  object = object;
  backend_id = codes "f1";
}

resumed_upload :
    upload_verified_object upload 20
    ≡ some (ok stored, (0, 7 ∷ 8 ∷ 9 ∷ []) ∷ (1, 8 ∷ 9 ∷ []) ∷ (2, 9 ∷ []) ∷ [])
unfolding have_properties verify_drive_object_file parse_drive_upload_success
    parse_drive_resumable_upload_offset parse_drive_resumable_upload_response
    recover_drive_resumable_upload send_chunk upload_from upload_verified_object pairs
    namespace_property file_name from_str to_string strip_prefix trim trim_start is_whitespace
    text_eq len take drop
resumed_upload = refl

upload_verified_object-Ends_example : Ends upload 20 0 (upload_verified_object upload 20)
upload_verified_object-Ends_example = upload_verified_object-Ends upload 20 (omega arith)

-- A digest of 64 digits, and a namespace that is too long to be stored.
abbrev digest : Text
digest = codes "0123456789abcdef0123456789abcdef0123456789abcdef0123456789abcdef"

abbrev long_key : GoogleDriveObjectKey
long_key = record { repo_namespace = digest ++ (digest ++ digest); object = object }

verify_drive_object_file-in_namespace_example :
    verify_drive_object_file drive
      (record long_key { repo_namespace = digest })
      (pairs (λ _. digest) (record long_key { repo_namespace = digest }))
      200
      (file_of (pairs (λ _. digest) long_key))
    ≡ ok (in_namespace digest (record stored { repository_namespace = long_key.repo_namespace }))
unfolding have_properties verify_drive_object_file pairs namespace_property file_name from_str
    to_string len trim text_eq
verify_drive_object_file-in_namespace_example =
    verify_drive_object_file-in_namespace (λ _. digest) drive digest long_key 200
      (file_of (pairs (λ _. digest) long_key))
      (record stored { repository_namespace = long_key.repo_namespace }) refl refl refl
