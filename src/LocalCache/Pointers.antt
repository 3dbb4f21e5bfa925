-- ===== src/LocalCache/Pointers.antt =====
-- src/local_cache/garbage_collection.rs: which objects the pointer files of the worktrees refer to.
pub mod Referenced
use lfs_cloud.Prelude.{
  ℕ, Bool, true, false, not, Option, none, some, [], ◌∷◌, ◌++◌, List, leb, if◌then◌else◌, is_empty,
  is_some, any, take, length, Result, ok, err, ◌>>=◌,
}
use lfs_cloud.Prelude.Text.{Text, codes, strip_prefix, text_eq}
use lfs_cloud.Prelude.Utf8.{from_utf8}
use lfs_cloud.Prelude.Paths.{PathBuf, join}
use lfs_cloud.Lfs.Oid.{LfsOid}
use lfs_cloud.Lfs.Pointer.{lfs_pointer_size_cutoff, parse, is_empty_pointer}
use lfs_cloud.GitOutput.{
  GitPathOutputError, malformed_attribute_output, path_outside_worktree,
  parse_lfs_filter_attribute_paths,
}
use lfs_cloud.LocalCache.{LocalCacheError, io, git_command_failed, git_command_output}
use lfs_cloud.LocalCache.Registry.{LocalCacheWorktreeRegistration}
use lfs_cloud.LocalCache.Disk.{
  FileType, file, Found, nothing, failed, found, OpenFile, Opened, gone, refused, opened, Output,
  ChildProcessError, pipe, timed_out, output_limit, inherited_pipe, Child, Disk,
}
use lfs_cloud.Server.Staging.Body.{Bytes}

abbrev pub is_file : FileType → Bool
is_file file = true
is_file _ = false

abbrev pub is_other_than_file : Found → Bool
is_other_than_file (found kind) = not (is_file kind)
is_other_than_file _ = false

abbrev pub contains : Text → Text → Bool
contains part [] = is_empty part
contains part (c ∷ s) =
    let rest = contains part s in if is_some (strip_prefix part (c ∷ s)) then true else rest

abbrev pub starts_with : Text → Text → Bool
starts_with prefix s = is_some (strip_prefix prefix s)

abbrev pub check_attr_context : Text → Text
check_attr_context context =
    if starts_with (codes "failed to read stdout") context
    then codes "failed to read git check-attr stdout during local cache garbage collection"
    else if starts_with (codes "failed to read stderr") context
    then codes "failed to read git check-attr stderr during local cache garbage collection"
    else if contains (codes "reader thread panicked") context
    then codes "git check-attr output reader panicked during local cache garbage collection"
    else codes "failed to wait for git check-attr during local cache garbage collection"

unfoldable pub local_cache_child_process_error :
    ChildProcessError → LocalCacheWorktreeRegistration → LocalCacheError
local_cache_child_process_error (pipe context source) r =
    io (check_attr_context context) r.worktree_root source
local_cache_child_process_error timed_out r =
    io (codes "git check-attr unexpectedly timed out") r.worktree_root
      (codes "no timeout was configured")
local_cache_child_process_error output_limit r =
    io (codes "git check-attr unexpectedly exceeded an output limit") r.worktree_root
      (codes "no output limit was configured")
local_cache_child_process_error inherited_pipe r =
    io (codes "timed out draining git check-attr output") r.worktree_root
      (codes "Git output pipes remained open after process-tree cleanup")

abbrev pub check_attr : Text
check_attr = codes "git check-attr --cached -z --stdin filter"

abbrev pub local_cache_git_path_output_error :
    LocalCacheWorktreeRegistration → GitPathOutputError → LocalCacheError
local_cache_git_path_output_error r malformed_attribute_output =
    git_command_output check_attr r.worktree_root
      (codes "expected path, attribute, and value triples")
local_cache_git_path_output_error r path_outside_worktree =
    git_command_output check_attr r.worktree_root
      (codes "returned a path outside the registered worktree")

-- After the child has ended: `none` for a writer is that its thread panicked.
abbrev pub attribute_output :
    LocalCacheWorktreeRegistration → Output → Option (Option Text) → Result LocalCacheError Bytes
attribute_output r output none = err (
    io (codes "git check-attr input writer panicked during local cache garbage collection")
      r.worktree_root (codes "git check-attr input writer panicked"))
attribute_output r output (some write_error) =
    if not output.success
    then err (git_command_failed check_attr r.worktree_root output.status)
    else elim write_error [
      | some source ↦
          err (io (codes "failed to write tracked paths to git check-attr") r.worktree_root source)
      | none ↦ ok output.stdout
    ]

-- `BTreeSet<LfsOid>` is the list of what was inserted.
abbrev pub is_referenced : LfsOid → List LfsOid → Bool
is_referenced oid referenced = any (λ o. text_eq o.hex oid.hex) referenced

pub data BoundedPointerBytes : Type 0 where
  contents_of : Bytes → BoundedPointerBytes
  not_regular_file : BoundedPointerBytes
  over_cutoff : ℕ → BoundedPointerBytes

abbrev pub bounded : Bytes → BoundedPointerBytes
bounded contents =
    if leb lfs_pointer_size_cutoff (length contents)
    then over_cutoff (length contents)
    else contents_of contents

unfoldable pub read_bounded_pointer_bytes :
    OpenFile → PathBuf → Text → Text → Result LocalCacheError BoundedPointerBytes
read_bounded_pointer_bytes f path inspect_context read_context = elim f.metadata [
  | err source ↦ err (io inspect_context path source)
  | ok (kind, len) ↦
      if not (is_file kind)
      then ok not_regular_file
      else if leb lfs_pointer_size_cutoff len
      then ok (over_cutoff len)
      else elim f.contents [
        | err source ↦ err (io read_context path source)
        | ok contents ↦ ok (bounded (take lfs_pointer_size_cutoff contents))
      ]
]

unfoldable pub insert_pointer : Bytes → List LfsOid → List LfsOid
insert_pointer contents referenced = elim (from_utf8 contents) [
  | none ↦ referenced
  | some text ↦ elim (parse text) [
    | err e ↦ referenced
    | ok pointer ↦ if is_empty_pointer pointer then referenced else pointer.object.oid ∷ referenced
  ]
]

-- Whether the path is skipped, and what is referenced then.
abbrev pub Collected : Type 0
Collected = Result LocalCacheError (Bool × List LfsOid)

abbrev pub collect_bytes : List LfsOid → BoundedPointerBytes → Bool × List LfsOid
collect_bytes referenced (contents_of contents) = (false, insert_pointer contents referenced)
collect_bytes referenced not_regular_file = (true, referenced)
collect_bytes referenced (over_cutoff _) = (false, referenced)

abbrev pub candidate : Text → Text
candidate what = codes "failed to " ++ what ++ codes " worktree pointer candidate"

abbrev pub collect_opened : PathBuf → List LfsOid → Opened → Collected
collect_opened path referenced gone = ok (false, referenced)
collect_opened path referenced (refused source later) =
    if is_other_than_file later
    then ok (true, referenced)
    else err (io (candidate (codes "open")) path source)
collect_opened path referenced (opened f) =
    read_bounded_pointer_bytes f path (candidate (codes "inspect")) (candidate (codes "read"))
    >>= (λ bytes. ok (collect_bytes referenced bytes))

-- What is referenced, and the paths that were skipped.
abbrev pub References : Type 0
References = List LfsOid × List PathBuf

abbrev pub push_skipped : PathBuf → List PathBuf → Bool × List LfsOid → References
push_skipped path skipped (true, referenced) = (referenced, skipped ++ path ∷ [])
push_skipped path skipped (false, referenced) = (referenced, skipped)

abbrev pub lfs_paths :
    LocalCacheWorktreeRegistration → Bytes → Result LocalCacheError (List PathBuf)
lfs_paths r attributes = elim (parse_lfs_filter_attribute_paths attributes) [
  | ok paths ↦ ok paths
  | err e ↦ err (local_cache_git_path_output_error r e)
]

module _ (disk : Disk) where
  unfoldable pub check_tracked_path_filter_attributes :
      LocalCacheWorktreeRegistration → Bytes → Result LocalCacheError Bytes
  check_tracked_path_filter_attributes r tracked_paths = elim (disk.check_attr r tracked_paths) [
    | err source ↦ err (
        io (codes "failed to start git check-attr for local cache garbage collection")
          r.worktree_root source)
    | ok child ↦ elim child.output [
      | err e ↦ err (local_cache_child_process_error e r)
      | ok output ↦ attribute_output r output child.write_result
    ]
  ]

  unfoldable pub collect_pointer_oid_from_file : PathBuf → List LfsOid → Collected
  collect_pointer_oid_from_file path referenced = elim (disk.symlink_metadata path) [
    | found kind ↦
        if is_file kind
        then collect_opened path referenced (disk.openat path)
        else ok (true, referenced)
    | nothing ↦ ok (false, referenced)
    | failed source ↦ err (io (candidate (codes "inspect")) path source)
  ]

  unfoldable pub collect_paths :
      PathBuf → List PathBuf → References → Result LocalCacheError References
  collect_paths root [] references = ok references
  collect_paths root (relative_path ∷ paths) (referenced, skipped) =
      let path = join root relative_path in
      collect_pointer_oid_from_file path referenced
      >>= (λ collected. collect_paths root paths (push_skipped path skipped collected))

  -- The paths of the Git LFS files that are tracked in a worktree.
  unfoldable pub tracked_lfs_paths :
      LocalCacheWorktreeRegistration → Result LocalCacheError (List PathBuf)
  tracked_lfs_paths r = elim (disk.ls_files r) [
    | err source ↦ err (
        io (codes "failed to start git ls-files -z for local cache garbage collection")
          r.worktree_root source)
    | ok output ↦
        if not output.success
        then err (git_command_failed (codes "git ls-files -z") r.worktree_root output.status)
        else if is_empty output.stdout
        then ok []
        else check_tracked_path_filter_attributes r output.stdout >>= lfs_paths r
  ]

  unfoldable pub collect_tracked_lfs_pointer_oids :
      LocalCacheWorktreeRegistration → References → Result LocalCacheError References
  collect_tracked_lfs_pointer_oids r references =
      tracked_lfs_paths r >>= (λ paths. collect_paths r.worktree_root paths references)

  unfoldable pub collect_worktrees :
      List LocalCacheWorktreeRegistration → References → Result LocalCacheError References
  collect_worktrees [] references = ok references
  collect_worktrees (r ∷ rs) references =
      collect_tracked_lfs_pointer_oids r references >>= collect_worktrees rs

  unfoldable pub referenced_worktree_oids :
      List LocalCacheWorktreeRegistration → Result LocalCacheError References
  referenced_worktree_oids rs = collect_worktrees rs ([], [])
