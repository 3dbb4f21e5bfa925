-- ===== src/LocalCache.antt =====
-- The errors of src/local_cache/error.rs and where src/local_cache/layout.rs puts the objects of the
-- cache of a client.
pub mod Registry
pub mod Disk
pub mod Pointers
pub mod Objects
pub mod GarbageCollection
use lfs_cloud.Prelude.{ℕ, [], ◌∷◌, take, drop}
use lfs_cloud.Prelude.Text.{Text, codes}
use lfs_cloud.Prelude.Paths.{PathBuf, join, normal}
use lfs_cloud.Lfs.Error.{LfsObjectError}
use lfs_cloud.Lfs.Oid.{LfsOid}

pub data LocalCacheError : Type 0 where
  missing_cache_object : LfsOid → ℕ → PathBuf → LocalCacheError
  missing_source_object : LfsOid → ℕ → PathBuf → LocalCacheError
  -- expected oid and size, actual oid and size
  integrity_mismatch : PathBuf → LfsOid → ℕ → LfsOid → ℕ → LocalCacheError
  -- context, path, source
  io : Text → PathBuf → Text → LocalCacheError
  -- field, message
  invalid_worktree_registration : Text → Text → LocalCacheError
  worktree_registry_json : Text → PathBuf → Text → LocalCacheError
  -- command, worktree root, status
  git_command_failed : Text → PathBuf → Text → LocalCacheError
  -- command, worktree root, message
  git_command_output : Text → PathBuf → Text → LocalCacheError
  -- path, version, supported version
  unsupported_worktree_registry_version : PathBuf → ℕ → ℕ → LocalCacheError
  materialization_target_exists : LfsOid → ℕ → PathBuf → LocalCacheError
  worktree_path_symlink : PathBuf → LocalCacheError
  pointer_parse : PathBuf → LfsObjectError → LocalCacheError
  -- path, size, cutoff
  pointer_file_too_large : PathBuf → ℕ → ℕ → LocalCacheError
  pointer_path_not_regular_file : PathBuf → LocalCacheError
  pointer_file_invalid_utf8 : PathBuf → Text → LocalCacheError
  -- expected oid and size, actual oid and size
  pointer_object_mismatch : PathBuf → LfsOid → ℕ → LfsOid → ℕ → LocalCacheError
  -- path, recovery path, source
  worktree_replacement_rollback : PathBuf → PathBuf → Text → LocalCacheError

-- `object_shards`: the two directories that an object is below.
abbrev pub object_shards : Text → Text × Text
object_shards hex = (take 2 hex, take 2 (drop 2 hex))

-- LocalCacheLayout::objects_dir, of its root
abbrev pub objects_dir : PathBuf → PathBuf
objects_dir root = join root (normal (codes "objects") ∷ [])

-- LocalCacheLayout::worktree_registry_path
abbrev pub worktree_registry_path : PathBuf → PathBuf
worktree_registry_path root = join root (normal (codes "worktrees.json") ∷ [])

abbrev pub object_path_for_oid : PathBuf → LfsOid → PathBuf
object_path_for_oid root oid =
    let (first_shard, second_shard) = object_shards oid.hex in
    join (join (join (objects_dir root) (normal first_shard ∷ [])) (normal second_shard ∷ []))
      (normal oid.hex ∷ [])
