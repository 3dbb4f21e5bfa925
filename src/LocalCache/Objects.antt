-- ===== src/LocalCache/Objects.antt =====
-- src/local_cache/garbage_collection.rs: which files below the cache are objects, and how one is deleted.
pub mod Places
use lfs_cloud.Prelude.{
  ℕ, Bool, true, false, ◌&&◌, Option, none, some, [], ◌∷◌, ◌++◌, List, if◌then◌else◌, and_then,
  Result, ok, err, ◌>>=◌, ◌>>◌,
}
use lfs_cloud.Prelude.Text.{Text, codes, text_eq}
use lfs_cloud.Prelude.Utf8.{from_utf8}
use lfs_cloud.Prelude.Paths.{PathBuf, join, normal, parent, last_name, path_eq}
use lfs_cloud.Lfs.Oid.{LfsOid}
use lfs_cloud.Lfs.Oid
use lfs_cloud.LocalCache.{LocalCacheError, io, object_shards}
use lfs_cloud.LocalCache.Registry.{LocalCacheWorktreeRegistry}
use lfs_cloud.LocalCache.Disk.{
  FileType, dir, DirEntry, ReadDir, no_directory, unreadable, entries, RemoveDir, removed,
  left_alone, not_removed, Disk,
}
use lfs_cloud.LocalCache.Pointers.{is_file}

pub record LocalCacheGarbageCollectionObject : Type 0 where
  pub oid : LfsOid
  pub path : PathBuf
  pub size_bytes : ℕ

abbrev pub is_dir : FileType → Bool
is_dir dir = true
is_dir _ = false

abbrev pub ok_of {ℓ κ} : {E : Type κ} {A : Type ℓ} → Result E A → Option A
ok_of (ok a) = some a
ok_of (err e) = none

abbrev pub is_text : Option Text → Text → Bool
is_text none expected = false
is_text (some name) expected = text_eq name expected

abbrev pub is_named : Option PathBuf → Text → Bool
is_named directory expected = is_text (and_then (and_then directory last_name) from_utf8) expected

unfoldable pub cache_object_from_entry :
    PathBuf → DirEntry → Option LocalCacheGarbageCollectionObject
cache_object_from_entry path entry = and_then (from_utf8 entry.name) (λ name.
    and_then (ok_of (Oid.new name)) (λ oid.
      let second_directory = parent path in
      let first_directory = and_then second_directory parent in
      if is_named first_directory (object_shards oid.hex).0
        && is_named second_directory (object_shards oid.hex).1
      then and_then entry.len (λ size. some (record { oid = oid; path = path; size_bytes = size }))
      else none))

-- The objects, and the paths that were skipped.
abbrev pub Cached : Type 0
Cached = List LocalCacheGarbageCollectionObject × List PathBuf

abbrev pub skip : PathBuf → Cached → Cached
skip path (objects, skipped) = (objects, skipped ++ path ∷ [])

abbrev pub push_object : PathBuf → Cached → Option LocalCacheGarbageCollectionObject → Cached
push_object path cached none = skip path cached
push_object path (objects, skipped) (some object) = (objects ++ object ∷ [], skipped)

abbrev pub read_cache_entry : Result Text DirEntry → PathBuf → Result LocalCacheError DirEntry
read_cache_entry (ok entry) directory = ok entry
read_cache_entry (err source) directory =
    err (io (codes "failed to read local cache directory entry") directory source)

abbrev pub entry_is_kind :
    DirEntry → PathBuf → Text → (FileType → Bool) → Result LocalCacheError Bool
entry_is_kind entry path label matches = elim entry.file_type [
  | ok kind ↦ ok (matches kind)
  | err source ↦ err (io label path source)
]

-- What is done with an entry at its path.
abbrev pub Visit : Type 0
Visit = PathBuf → DirEntry → Cached → Result LocalCacheError Cached

-- A loop over the entries of a directory.
unfoldable pub visit_entries :
    Visit → PathBuf → List (Result Text DirEntry) → Cached → Result LocalCacheError Cached
visit_entries visit directory [] cached = ok cached
visit_entries visit directory (entry ∷ es) cached =
    read_cache_entry entry directory
    >>= (λ e. visit (join directory (normal e.name ∷ [])) e cached)
    >>= visit_entries visit directory es

unfoldable pub visit_object : Visit
visit_object path entry cached =
    entry_is_kind entry path (codes "cache object path") is_file >>= (λ is_object. ok (
      if is_object
      then push_object path cached (cache_object_from_entry path entry)
      else skip path cached))

abbrev pub shard_entries : PathBuf → ReadDir → Result LocalCacheError (List (Result Text DirEntry))
shard_entries path (entries es) = ok es
shard_entries path (no_directory source) =
    err (io (codes "failed to read local cache shard directory") path source)
shard_entries path (unreadable source) =
    err (io (codes "failed to read local cache shard directory") path source)

module _ (disk : Disk) where
  -- A shard directory, in which each entry is visited; anything else is skipped.
  abbrev pub visit_shard : Text → Visit → Visit
  visit_shard label visit path entry cached = entry_is_kind entry path label is_dir >>= (λ is_shard.
      if is_shard
      then shard_entries path (disk.read_dir path) >>= (λ es. visit_entries visit path es cached)
      else ok (skip path cached))

  abbrev pub collect_first_shards : PathBuf → ReadDir → Result LocalCacheError Cached
  collect_first_shards objects_dir (no_directory source) = ok ([], [])
  collect_first_shards objects_dir (unreadable source) =
      err (io (codes "failed to read local cache objects directory") objects_dir source)
  collect_first_shards objects_dir (entries es) =
      visit_entries
        (visit_shard (codes "first-level cache shard")
          (visit_shard (codes "second-level cache shard") visit_object))
        objects_dir es ([], [])

  unfoldable pub collect_cache_object_files : PathBuf → Result LocalCacheError Cached
  collect_cache_object_files objects_dir =
      collect_first_shards objects_dir (disk.read_dir objects_dir)
