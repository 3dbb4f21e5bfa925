-- ===== src/GoogleDrive/ObjectKey.antt =====
-- `GoogleDriveObjectKey` of src/google_drive/object_key.rs: how an object is addressed in Drive, by
-- its name, its private properties, and the query that looks for it. SHA-256 is the argument `sha256`.
pub mod Properties
pub mod Query
mod Tests
use lfs_cloud.Prelude.{
  ℕ, ◌+◌, Bool, ◌||◌, Option, none, some, [], ◌∷◌, ◌++◌, List, ◌==◌, ltb, if◌then◌else◌, any,
  is_empty, Result, ok, err, ◌>>=◌,
}
use lfs_cloud.Prelude.Text.{Text, codes, len, trim}
use lfs_cloud.Prelude.Decimal.{to_string}
use lfs_cloud.Errors.{StorageError, upstream}
use lfs_cloud.Lfs.Oid.{LfsOid, LfsObject}
use lfs_cloud.Sessions.{is_control}

pub record GoogleDriveObjectKey : Type 0 where
  pub repo_namespace : Text
  pub object : LfsObject

unfoldable pub validate_repo_namespace : Text → Result StorageError Text
validate_repo_namespace value =
    let trimmed = trim value in
    if is_empty trimmed
    then err (upstream (codes "google_drive") none (codes "repository namespace must not be blank"))
    else if any is_control trimmed
    then err (
        upstream (codes "google_drive") none
          (codes "repository namespace must not contain control characters"))
    else ok trimmed

-- `GoogleDriveObjectKey::new`
unfoldable pub new_key : Text → LfsObject → Result StorageError GoogleDriveObjectKey
new_key repo_namespace object = validate_repo_namespace repo_namespace >>= λ n.
    ok (record { repo_namespace = n; object = object })

unfoldable pub file_name : GoogleDriveObjectKey → Text
file_name key =
    codes "sha256-" ++ key.object.oid.hex ++ codes "-" ++ to_string key.object.size ++ codes ".lfs"

pub data GoogleDriveRepositoryNamespaceProperty : Type 0 where
  raw sha256_of : Text → GoogleDriveRepositoryNamespaceProperty

abbrev pub max_custom_property_bytes : ℕ
max_custom_property_bytes = 124

abbrev pub value : GoogleDriveRepositoryNamespaceProperty → Text
value (raw s) = s
value (sha256_of s) = s

-- The pair that `format` adds.
abbrev pub format_pairs : GoogleDriveRepositoryNamespaceProperty → List (Text × Text)
format_pairs (raw _) = []
format_pairs (sha256_of _) = (codes "lfsCloudRepoNamespaceFormat", codes "sha256") ∷ []

module _ (sha256 : Text → Text) where
  -- `GoogleDriveRepositoryNamespaceProperty::new`
  unfoldable pub namespace_property : Text → GoogleDriveRepositoryNamespaceProperty
  namespace_property n =
      if ltb max_custom_property_bytes (len (codes "lfsCloudRepoNamespace") + len n)
      then sha256_of (sha256 n)
      else raw n

  -- `expected_app_properties`, as `pairs`
  unfoldable pub pairs : GoogleDriveObjectKey → List (Text × Text)
  pairs key =
      let n = namespace_property key.repo_namespace in
      (codes "lfsCloudVersion", codes "1")
      ∷ (codes "lfsCloudRepoNamespace", value n)
      ∷ (codes "lfsCloudOid", key.object.oid.hex)
      ∷ (codes "lfsCloudSize", to_string key.object.size)
      ∷ format_pairs n

unfoldable pub escape_drive_query_string : Text → Text
escape_drive_query_string [] = []
escape_drive_query_string (c ∷ s) =
    let rest = escape_drive_query_string s in
    if c == 0x27 || c == 0x5c then 0x5c ∷ c ∷ rest else c ∷ rest

abbrev pub property_clause : Text × Text → Text
property_clause (property, v) =
    codes " and appProperties has { key='"
    ++ (escape_drive_query_string property
        ++ (codes "' and value='" ++ (escape_drive_query_string v ++ codes "' }")))

-- The loop that appends to the query.
unfoldable pub push_properties : Text → List (Text × Text) → Text
push_properties query [] = query
push_properties query (p ∷ ps) = push_properties (query ++ property_clause p) ps

unfoldable pub drive_object_lookup_query : Text → GoogleDriveObjectKey → List (Text × Text) → Text
drive_object_lookup_query root_folder_id key properties =
    push_properties
      (codes "'"
        ++ (escape_drive_query_string root_folder_id
            ++ (codes "' in parents and trashed = false and name = '"
                ++ (escape_drive_query_string (file_name key) ++ codes "'"))))
      properties
