-- ===== src/GoogleDrive/ObjectKey/Tests.antt =====
-- An object key at work, and the theorems on object keys at concrete keys.
use lfs_cloud.Prelude.{◌≡◌, refl, ◌∷◌, ◌++◌, map, ok, arith}
use lfs_cloud.Prelude.Text.{Text, codes, trim, trim_start, is_whitespace}
use lfs_cloud.Lfs.Oid.{LfsObject}
use lfs_cloud.GoogleDrive.ObjectKey.{
  GoogleDriveObjectKey, new_key, validate_repo_namespace, file_name, pairs,
  drive_object_lookup_query,
}
use lfs_cloud.GoogleDrive.ObjectKey.Query.{
  word, literal, tokens, properties_tokens, tokens-drive_object_lookup_query,
}
use lfs_cloud.GoogleDrive.ObjectKey.Properties.{pairs-injective}

abbrev sha256 : Text → Text
sha256 s = s

abbrev object : LfsObject
object = record { oid = record { hex = codes "aa" }; size = 12 }

abbrev key : GoogleDriveObjectKey
key = record { repo_namespace = codes "o'brien"; object = object }

trimmed_key : new_key (codes " o'brien ") object ≡ ok key
unfolding new_key validate_repo_namespace trim trim_start is_whitespace
trimmed_key = refl

tokens-drive_object_lookup_query_example :
    tokens (drive_object_lookup_query (codes "ro\\'ot") key (pairs sha256 key))
    ≡ literal (codes "ro\\'ot") ∷ map word (codes " in parents and trashed = false and name = ")
      ++ literal (file_name key) ∷ properties_tokens (pairs sha256 key)
tokens-drive_object_lookup_query_example =
    tokens-drive_object_lookup_query (codes "ro\\'ot") key (pairs sha256 key)

pairs-injective_example : key ≡ key
pairs-injective_example = pairs-injective sha256 key key (λ h. h) (omega arith) (omega arith) refl
