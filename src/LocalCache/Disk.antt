-- ===== src/LocalCache/Disk.antt =====
-- What the file system and git answer to src/local_cache/garbage_collection.rs, which holds the locks of
-- the cache and of the registry meanwhile.
use lfs_cloud.Prelude.{ℕ, Bool, Option, List, Result}
use lfs_cloud.Prelude.Text.{Text}
use lfs_cloud.Prelude.Paths.{PathBuf}
use lfs_cloud.LocalCache.{LocalCacheError}
use lfs_cloud.LocalCache.Registry.{
  LocalCacheWorktreeRegistration, LocalCacheWorktreeRegistry, RegistryFile,
}
use lfs_cloud.Server.Staging.Body.{Bytes}

pub data FileType : Type 0 where
  file dir other : FileType

-- `fs::metadata` and `fs::symlink_metadata`
pub data Found : Type 0 where
  nothing : Found
  failed : Text → Found
  found : FileType → Found

-- An open file: its metadata, that is, its type and length, and its bytes.
pub record OpenFile : Type 0 where
  pub metadata : Result Text (FileType × ℕ)
  pub contents : Result Text Bytes

-- An open that fails is followed by another look at the path.
pub data Opened : Type 0 where
  gone : Opened
  refused : Text → Found → Opened
  opened : OpenFile → Opened

-- `Command::output`: whether the command succeeded, its status, and what it printed.
pub record Output : Type 0 where
  pub success : Bool
  pub status : Text
  pub stdout : Bytes

pub data ChildProcessError : Type 0 where
  -- context, source
  pipe : Text → Text → ChildProcessError
  timed_out output_limit inherited_pipe : ChildProcessError

-- A child that is written to by a thread: what waiting for it gives, and what the writer ends with.
pub record Child : Type 0 where
  pub output : Result ChildProcessError Output
  pub write_result : Option (Option Text)

-- An entry of a directory: its name in bytes, its type, and its length if that can be read.
pub record DirEntry : Type 0 where
  pub name : Bytes
  pub file_type : Result Text FileType
  pub len : Option ℕ

pub data ReadDir : Type 0 where
  no_directory unreadable : Text → ReadDir
  entries : List (Result Text DirEntry) → ReadDir

-- `fs::remove_dir`; a directory that is not empty, or not there, is left alone.
pub data RemoveDir : Type 0 where
  removed left_alone : RemoveDir
  not_removed : Text → RemoveDir

pub record Disk : Type 0 where
  pub cache_operation_lock : Option LocalCacheError
  pub worktree_registry_lock : Option LocalCacheError
  pub registry_file : RegistryFile
  pub metadata : PathBuf → Found
  pub ls_files : LocalCacheWorktreeRegistration → Result Text Output
  pub check_attr : LocalCacheWorktreeRegistration → Bytes → Result Text Child
  pub symlink_metadata : PathBuf → Found
  pub openat : PathBuf → Opened
  pub read_dir : PathBuf → ReadDir
  pub save_registry : LocalCacheWorktreeRegistry → Option LocalCacheError
  pub remove_file : PathBuf → Option Text
  pub remove_dir : PathBuf → RemoveDir
