-- ===== src/LocalCache/GarbageCollection/Tests.antt =====
-- A garbage collection at work, and the theorems on garbage collections at a concrete disk.
use lfs_cloud.Prelude.{
  ◌≡◌, refl, sym, ap, subst, true, false, none, some, [], ◌∷◌, ◌++◌, List, if◌then◌else◌, Result,
  ok, take, drop, length, map,
}
use mathlib.Core.List.{Memᴰ}
use lfs_cloud.Prelude.Text.{
  Text, codes, len, text_eq, text_ltb, strip_prefix, split_once, trim, trim_start, is_whitespace,
  to_lowercase,
}
use lfs_cloud.Prelude.Text.Lines.{lines}
use lfs_cloud.Prelude.Decimal.{from_str}
use lfs_cloud.Prelude.Utf8.{decode, step, lead}
use lfs_cloud.Prelude.Paths.{
  PathBuf, root_dir, normal, components, split_at, later_components, split_last, path_eq, path_ltb,
}
use lfs_cloud.Prelude.Sorting.{insert_sorted, sort_by, dedup}
use lfs_cloud.Lfs.Oid.{LfsOid, from_sha256_hex, digest_part, find_not, from_canonical_sha256_hex}
use lfs_cloud.Lfs.Oid
use lfs_cloud.Lfs.Pointer.{
  parse, parse_lines, parse_version, parse_fields, parse_line, parse_field, read_oid, read_size,
  parse_pointer_oid, size_or_error, drop_blank, is_empty_pointer,
}
use lfs_cloud.GitOutput.{safe_git_relative_path, parse_triples, parse_lfs_filter_attribute_paths}
use lfs_cloud.LocalCache.Registry.{
  LocalCacheWorktreeRegistration, LocalCacheWorktreeRegistry, decoded, validate, validate_worktrees,
  validate_for_path, load_worktree_registry, remove_root,
}
use lfs_cloud.LocalCache.Disk.{
  FileType, file, dir, nothing, found, OpenFile, opened, Output, DirEntry, ReadDir, no_directory,
  entries, removed, left_alone, Disk,
}
use lfs_cloud.LocalCache.Pointers.{
  read_bounded_pointer_bytes, insert_pointer, check_tracked_path_filter_attributes,
  collect_pointer_oid_from_file, collect_paths, tracked_lfs_paths, collect_tracked_lfs_pointer_oids,
  collect_worktrees, referenced_worktree_oids,
}
use lfs_cloud.LocalCache.Objects.{
  LocalCacheGarbageCollectionObject, cache_object_from_entry, visit_entries, visit_object,
  collect_cache_object_files,
}
use lfs_cloud.LocalCache.GarbageCollection.{
  Effect, registry_saved, file_removed, dir_removed, partition_existing_worktrees,
  remove_empty_cache_shard_dirs, delete_cache_object, sort_out, sort_out_all, prune_worktrees,
  reclaim, garbage_collect, LocalCacheGarbageCollection,
}
use lfs_cloud.LocalCache.GarbageCollection.Safety.{IsJustified, garbage_collect-IsJustified}
use lfs_cloud.LocalCache.GarbageCollection.Report.{IsReport, garbage_collect-IsReport}
use lfs_cloud.Server.Staging.Body.{Bytes}

abbrev used : Text
used = codes "aabb000000000000000000000000000000000000000000000000000000000000"

abbrev unused : Text
unused = codes "aacc000000000000000000000000000000000000000000000000000000000000"

abbrev at : List Text → PathBuf
at names = root_dir ∷ map normal names

abbrev registration : Text → LocalCacheWorktreeRegistration
registration name = record {
  repository_id = codes "art";
  worktree_root = at (name ∷ []);
  git_dir = at (name ∷ codes ".git" ∷ []);
}

abbrev registry_of : List Text → LocalCacheWorktreeRegistry
registry_of names = record { version = 2; worktrees = map registration names }

-- A worktree that is there, with a pointer file, and one that is not.
abbrev there : Text
there = codes "w"

abbrev gone_ : Text
gone_ = codes "v"

abbrev pointer_file : OpenFile
pointer_file =
    let contents =
      codes "version https://git-lfs.github.com/spec/v1\noid sha256:"
      ++ used
      ++ codes "\nsize 3\n" in
    record { metadata = ok (file, length contents); contents = ok contents }

abbrev output : Bytes → Output
output stdout = record { success = true; status = codes "exit status: 0"; stdout = stdout }

abbrev entry_of : FileType → Text → Result Text DirEntry
entry_of kind name = ok (record { name = name; file_type = ok kind; len = some 3 })

abbrev listing : PathBuf → ReadDir
listing path =
    if path_eq path (at (codes "c" ∷ codes "objects" ∷ []))
    then entries (entry_of dir (codes "aa") ∷ entry_of file (codes "stray") ∷ [])
    else if path_eq path (at (codes "c" ∷ codes "objects" ∷ codes "aa" ∷ []))
    then entries (entry_of dir (codes "cc") ∷ entry_of dir (codes "bb") ∷ [])
    else if path_eq path (at (codes "c" ∷ codes "objects" ∷ codes "aa" ∷ codes "bb" ∷ []))
    then entries (entry_of file used ∷ [])
    else if path_eq path (at (codes "c" ∷ codes "objects" ∷ codes "aa" ∷ codes "cc" ∷ []))
    then entries (entry_of file unused ∷ [])
    else no_directory (codes "no such directory")

abbrev disk : Disk
disk = record {
  cache_operation_lock = none;
  worktree_registry_lock = none;
  registry_file = decoded (registry_of (there ∷ gone_ ∷ []));
  metadata = λ path. if path_eq path (at (there ∷ [])) then found dir else nothing;
  ls_files = λ r. ok (output (codes "m.bin" ++ 0 ∷ []));
  check_attr = λ r paths. ok (record {
    output = ok (output (codes "m.bin" ++ 0 ∷ (codes "filter" ++ 0 ∷ (codes "lfs" ++ 0 ∷ []))));
    write_result = some none;
  });
  symlink_metadata =
      λ path. if path_eq path (at (there ∷ codes "m.bin" ∷ [])) then found file else nothing;
  openat = λ path. opened pointer_file;
  read_dir = listing;
  save_registry = λ registry. none;
  remove_file = λ path. none;
  remove_dir = λ path.
      if path_eq path (at (codes "c" ∷ codes "objects" ∷ codes "aa" ∷ codes "cc" ∷ []))
      then removed
      else left_alone;
}

abbrev display : PathBuf → Text
display path = codes "a path"

abbrev key : PathBuf → PathBuf
key path = path

abbrev cache : PathBuf
cache = at (codes "c" ∷ [])

abbrev unused_path : PathBuf
unused_path = at (codes "c" ∷ codes "objects" ∷ codes "aa" ∷ codes "cc" ∷ unused ∷ [])

abbrev effects : List Effect
effects =
    registry_saved (registry_of (there ∷ []))
    ∷ file_removed unused_path
    ∷ dir_removed (at (codes "c" ∷ codes "objects" ∷ codes "aa" ∷ codes "cc" ∷ []))
    ∷ []

abbrev report : LocalCacheGarbageCollection
report =
    let object : Text → PathBuf → LocalCacheGarbageCollectionObject =
      λ name path. record { oid = record { hex = name }; path = path; size_bytes = 3 } in
    record {
      dry_run = false;
      active_worktree_count = 1;
      unavailable_worktrees = registration gone_ ∷ [];
      pruned_worktrees = registration gone_ ∷ [];
      sorted = record {
        retained_objects =
            object used (at (codes "c" ∷ codes "objects" ∷ codes "aa" ∷ codes "bb" ∷ used ∷ []))
            ∷ [];
        protected_objects = [];
        unreferenced_objects = object unused unused_path ∷ [];
        deleted_objects = object unused unused_path ∷ [];
      };
      skipped_cache_paths = at (codes "c" ∷ codes "objects" ∷ codes "stray" ∷ []) ∷ [];
      skipped_worktree_pointer_paths = [];
    }

pruning_run : garbage_collect disk key display cache false true ≡ (ok report, effects)
unfolding garbage_collect load_worktree_registry validate_for_path validate_worktrees validate trim
    trim_start is_whitespace text_eq path_eq path_ltb partition_existing_worktrees
    referenced_worktree_oids collect_worktrees collect_tracked_lfs_pointer_oids tracked_lfs_paths
    check_tracked_path_filter_attributes parse_lfs_filter_attribute_paths parse_triples split_at
    safe_git_relative_path components later_components split_last digest_part find_not
    from_sha256_hex from_canonical_sha256_hex Oid.new drop_blank is_empty_pointer parse parse_field
    parse_fields parse_line parse_lines parse_pointer_oid parse_version read_oid read_size
    size_or_error delete_cache_object prune_worktrees reclaim remove_empty_cache_shard_dirs sort_out
    sort_out_all cache_object_from_entry collect_cache_object_files visit_entries visit_object
    collect_paths collect_pointer_oid_from_file insert_pointer read_bounded_pointer_bytes
    remove_root from_str take drop dedup insert_sorted sort_by lines len split_once strip_prefix
    text_ltb to_lowercase decode lead step
pruning_run = refl

-- A name in capitals is taken for the name of an object, which is at another path.
abbrev capitals : Text
capitals = codes "AACC000000000000000000000000000000000000000000000000000000000000"

file_in_capitals :
    let path = at (codes "c" ∷ codes "objects" ∷ codes "aa" ∷ codes "cc" ∷ capitals ∷ []) in
    cache_object_from_entry path (record { name = capitals; file_type = ok file; len = some 3 })
    ≡ some (record { oid = record { hex = unused }; path = path; size_bytes = 3 })
unfolding cache_object_from_entry split_last digest_part find_not from_sha256_hex Oid.new trim
    trim_start is_whitespace len split_once text_eq to_lowercase decode step lead take drop
file_in_capitals = refl

garbage_collect-IsJustified_example : IsJustified disk display key cache false true unused_path
garbage_collect-IsJustified_example =
    garbage_collect-IsJustified disk display key cache false true unused_path (
      subst (Memᴰ (file_removed unused_path)) (ap (λ r. r.1) (sym pruning_run))
        (Memᴰ.tail (Memᴰ.head refl)))

garbage_collect-IsReport_example : IsReport disk display key cache false true report effects
garbage_collect-IsReport_example =
    garbage_collect-IsReport disk display key cache false true report effects pruning_run
