-- ===== src/GoogleDrive/Upload/Verification.antt =====
-- How src/google_drive/object_store.rs verifies the file that Drive has stored.
use lfs_cloud.Prelude.{
  ℕ, Bool, true, false, not, Option, none, some, [], ◌∷◌, List, ◌==◌, if◌then◌else◌, is_empty,
  Result, ok, err, ◌>>=◌, ◌>>◌, guard, ok_or,
}
use lfs_cloud.Prelude.Text.{Text, codes, text_eq, trim}
use lfs_cloud.Prelude.Decimal.{from_str}
use lfs_cloud.Errors.{StorageError, conflict, integrity_mismatch, upstream}
use lfs_cloud.Server.Batch.Lookup.{StoredObject}
use lfs_cloud.GoogleDrive.ObjectKey.{GoogleDriveObjectKey, file_name}

-- What is read of the metadata of a file.
pub record GoogleDriveObjectFile : Type 0 where
  pub id : Option Text
  pub name : Option Text
  pub size : Option Text
  pub trashed : Bool
  pub app_properties : Text → Option Text

abbrev pub same_text : Option Text → Text → Bool
same_text none s = false
same_text (some t) s = text_eq t s

abbrev pub non_blank : Option Text → Option Text
non_blank none = none
non_blank (some id) = if is_empty (trim id) then none else some id

unfoldable pub have_properties : (Text → Option Text) → List (Text × Text) → Bool
have_properties found [] = true
have_properties found ((property, expected) ∷ ps) =
    let rest = have_properties found ps in
    if same_text (found property) expected then rest else false

abbrev pub parsed {ℓ} :
    {E : Type 0} {A : Type ℓ} → StorageError → Result E A → Result StorageError A
parsed e (ok a) = ok a
parsed e (err _) = err e

unfoldable pub verify_drive_object_file :
    Text
    → GoogleDriveObjectKey
    → List (Text × Text)
    → ℕ
    → GoogleDriveObjectFile
    → Result StorageError StoredObject
verify_drive_object_file provider key expected status file = do
  let bad_file = conflict provider key.object.oid.hex
  id ← ok_or (non_blank file.id) (
      upstream provider (some status)
        (codes "Google Drive object lookup response did not include id"))
  guard (same_text file.name (file_name key)) bad_file
  guard (not file.trashed) bad_file
  guard (have_properties file.app_properties expected) bad_file
  size ← ok_or file.size (
      upstream provider (some status)
        (codes "Google Drive object lookup response did not include size"))
  actual_size ←
      parsed
        (upstream provider (some status)
          (codes "Google Drive object lookup response size was invalid"))
        (from_str size)
  guard (actual_size == key.object.size)
      (integrity_mismatch key.object.oid.hex key.object.size key.object.oid.hex actual_size)
  ok (record {
    provider_id = provider;
    repository_namespace = key.repo_namespace;
    object = key.object;
    backend_id = id;
  })
