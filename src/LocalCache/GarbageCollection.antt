-- ===== src/LocalCache/GarbageCollection.antt =====
-- `garbage_collect` of src/local_cache/garbage_collection.rs: what it deletes, and what it reports.
pub mod Parts
pub mod Deleted
pub mod Safety
pub mod Removals
pub mod Reported
pub mod Report
mod Tests
use lfs_cloud.Prelude.{
  ℕ, Bool, true, false, not, ◌&&◌, Option, none, some, [], ◌∷◌, ◌++◌, List, if◌then◌else◌, is_empty,
  length, Result, ok, err, ◌>>=◌, ◌>>◌, and_then,
}
use lfs_cloud.Prelude.Text.{Text, codes}
use lfs_cloud.Prelude.Paths.{PathBuf, parent, path_eq, path_ltb}
use lfs_cloud.Prelude.Sorting.{sort_by, dedup}
use lfs_cloud.Lfs.Oid.{LfsOid}
use lfs_cloud.LocalCache.{LocalCacheError, io, objects_dir, worktree_registry_path}
use lfs_cloud.LocalCache.Registry.{
  LocalCacheWorktreeRegistration, LocalCacheWorktreeRegistry, load_worktree_registry,
  remove_worktree,
}
use lfs_cloud.LocalCache.Disk.{
  Found, nothing, failed, found, RemoveDir, removed, left_alone, not_removed, Disk,
}
use lfs_cloud.LocalCache.Pointers.{is_referenced, referenced_worktree_oids, References}
use lfs_cloud.LocalCache.Objects.{
  LocalCacheGarbageCollectionObject, Cached, is_dir, collect_cache_object_files,
}

-- What has happened on the disk.
pub data Effect : Type 0 where
  registry_saved : LocalCacheWorktreeRegistry → Effect
  file_removed dir_removed : PathBuf → Effect

-- A result, and what has happened until then.
abbrev pub Run : Type 0 → Type 0
Run A = Result LocalCacheError A × List Effect

module _ {B : Type 0} where
  abbrev pub after_effects : List Effect → Run B → Run B
  after_effects es (result, fs) = (result, es ++ fs)

module _ {A B : Type 0} where
  -- One step after another, unless the first fails.
  abbrev pub then_run : Run A → (A → Run B) → Run B
  then_run (err e, es) next = (err e, es)
  then_run (ok a, es) next = after_effects es (next a)

  -- A step without effects before one that has some.
  abbrev pub with_result : Result LocalCacheError A → (A → Run B) → Run B
  with_result (err e) next = (err e, [])
  with_result (ok a) next = next a

-- The registrations whose root is a directory, and the others.
abbrev pub Partition : Type 0
Partition = List LocalCacheWorktreeRegistration × List LocalCacheWorktreeRegistration

abbrev pub to_active : LocalCacheWorktreeRegistration → Partition → Partition
to_active r (active, missing) = (r ∷ active, missing)

abbrev pub to_missing : LocalCacheWorktreeRegistration → Partition → Partition
to_missing r (active, missing) = (active, r ∷ missing)

-- The objects as the loop sorts them out.
pub record Sorted : Type 0 where
  pub retained_objects : List LocalCacheGarbageCollectionObject
  pub protected_objects : List LocalCacheGarbageCollectionObject
  pub unreferenced_objects : List LocalCacheGarbageCollectionObject
  pub deleted_objects : List LocalCacheGarbageCollectionObject

abbrev pub nothing_sorted : Sorted
nothing_sorted = record {
  retained_objects = [];
  protected_objects = [];
  unreferenced_objects = [];
  deleted_objects = [];
}

pub record LocalCacheGarbageCollection : Type 0 where
  pub dry_run : Bool
  pub active_worktree_count : ℕ
  pub unavailable_worktrees : List LocalCacheWorktreeRegistration
  pub pruned_worktrees : List LocalCacheWorktreeRegistration
  pub sorted : Sorted
  pub skipped_cache_paths : List PathBuf
  pub skipped_worktree_pointer_paths : List PathBuf

module _ {A : Type 0} where
  -- What is done while a lock is held; taking it may fail.
  abbrev pub with_lock : Option LocalCacheError → Run A → Run A
  with_lock none run = run
  with_lock (some e) run = (err e, [])

abbrev pub directory_removed : PathBuf → RemoveDir → Run (Unit {0})
directory_removed path removed = (ok tt, dir_removed path ∷ [])
directory_removed path left_alone = (ok tt, [])
directory_removed path (not_removed source) =
    (err (io (codes "failed to remove empty local cache shard directory") path source), [])

abbrev pub saved : LocalCacheWorktreeRegistry → Option LocalCacheError → Run (Unit {0})
saved registry none = (ok tt, registry_saved registry ∷ [])
saved registry (some e) = (err e, [])

abbrev pub retain_object : LocalCacheGarbageCollectionObject → Sorted → Sorted
retain_object o s = record s { retained_objects = s.retained_objects ++ o ∷ [] }

abbrev pub protect_object : LocalCacheGarbageCollectionObject → Sorted → Sorted
protect_object o s = record s { protected_objects = s.protected_objects ++ o ∷ [] }

abbrev pub leave_object : LocalCacheGarbageCollectionObject → Sorted → Sorted
leave_object o s = record s { unreferenced_objects = s.unreferenced_objects ++ o ∷ [] }

abbrev pub delete_object : LocalCacheGarbageCollectionObject → Sorted → Sorted
delete_object o s = record s {
  unreferenced_objects = s.unreferenced_objects ++ o ∷ [];
  deleted_objects = s.deleted_objects ++ o ∷ [];
}

-- A registered worktree is unavailable, and not to be pruned.
abbrev pub protects : List LocalCacheWorktreeRegistration → Bool → Bool
protects unavailable prune = not (is_empty unavailable) && not prune

module _ (disk : Disk) where
  abbrev pub partition_found :
      LocalCacheWorktreeRegistration
      → Found
      → Result LocalCacheError Partition
      → Result LocalCacheError Partition
  partition_found r nothing rest = rest >>= (λ p. ok (to_missing r p))
  partition_found r (found kind) rest =
      rest >>= (λ p. ok (if is_dir kind then to_active r p else to_missing r p))
  partition_found r (failed source) rest =
      err (io (codes "failed to inspect registered worktree root") r.worktree_root source)

  unfoldable pub partition_existing_worktrees :
      List LocalCacheWorktreeRegistration → Result LocalCacheError Partition
  partition_existing_worktrees [] = ok ([], [])
  partition_existing_worktrees (r ∷ rs) =
      partition_found r (disk.metadata r.worktree_root) (partition_existing_worktrees rs)

  abbrev pub remove_empty_directory : PathBuf → Run (Unit {0})
  remove_empty_directory path = directory_removed path (disk.remove_dir path)

  abbrev pub remove_shards : PathBuf → Option PathBuf → Option PathBuf → Run (Unit {0})
  remove_shards objects_dir (some second_shard) (some first_shard) =
      then_run (remove_empty_directory second_shard) (λ _.
        if path_eq first_shard objects_dir then (ok tt, []) else remove_empty_directory first_shard)
  remove_shards objects_dir _ _ = (ok tt, [])

  unfoldable pub remove_empty_cache_shard_dirs : PathBuf → PathBuf → Run (Unit {0})
  remove_empty_cache_shard_dirs path objects_dir =
      remove_shards objects_dir (parent path) (and_then (parent path) parent)

  -- LocalCacheLayout::delete_cache_object
  unfoldable pub delete_cache_object : PathBuf → LocalCacheGarbageCollectionObject → Run (Unit {0})
  delete_cache_object objects_dir object = elim (disk.remove_file object.path) [
    | some source ↦
        (err (io (codes "failed to remove unreferenced local cache object") object.path source), [])
    | none ↦
        after_effects (file_removed object.path ∷ [])
          (remove_empty_cache_shard_dirs object.path objects_dir)
  ]

  -- What the loop reads: the objects directory, `dry_run`, whether worktrees protect their objects, and
  -- what is referenced.
  module _ (objects_dir : PathBuf) (dry_run protected : Bool) (referenced : List LfsOid) where
    unfoldable pub sort_out : LocalCacheGarbageCollectionObject → Sorted → Run Sorted
    sort_out o s =
        if is_referenced o.oid referenced
        then (ok (retain_object o s), [])
        else if protected
        then (ok (protect_object o s), [])
        else if dry_run
        then (ok (leave_object o s), [])
        else then_run (delete_cache_object objects_dir o) (λ _. (ok (delete_object o s), []))

    unfoldable pub sort_out_all : List LocalCacheGarbageCollectionObject → Sorted → Run Sorted
    sort_out_all [] s = (ok s, [])
    sort_out_all (o ∷ os) s = then_run (sort_out o s) (sort_out_all os)

  abbrev pub save : LocalCacheWorktreeRegistry → Run (Unit {0})
  save registry = saved registry (disk.save_registry registry)

  module _ (key : PathBuf → PathBuf) where
    -- The loop that drops the worktrees that are pruned.
    unfoldable pub prune_worktrees :
        List LocalCacheWorktreeRegistration
        → LocalCacheWorktreeRegistry
        → LocalCacheWorktreeRegistry
    prune_worktrees [] registry = registry
    prune_worktrees (r ∷ rs) registry =
        prune_worktrees rs (remove_worktree key r.worktree_root registry)

    -- What follows once the worktrees and the cache have been read.
    unfoldable pub reclaim :
        PathBuf
        → Bool
        → Bool
        → LocalCacheWorktreeRegistry
        → Partition
        → References
        → Cached
        → Run LocalCacheGarbageCollection
    reclaim root dry_run prune registry (active, unavailable) (referenced, skipped_pointers)
          (objects, skipped) =
        let pruned = if prune then unavailable else [] in
        then_run
          (if not dry_run && (prune && not (is_empty pruned))
            then save (prune_worktrees pruned registry)
            else (ok tt, []))
          (λ _.
            then_run
              (sort_out_all (objects_dir root) dry_run (protects unavailable prune) referenced
                (sort_by (λ o p. path_ltb o.path p.path) objects) nothing_sorted)
              (λ sorted. (
                ok (record {
                  dry_run = dry_run;
                  active_worktree_count = length active;
                  unavailable_worktrees = unavailable;
                  pruned_worktrees = pruned;
                  sorted = sorted;
                  skipped_cache_paths = sort_by path_ltb skipped;
                  skipped_worktree_pointer_paths =
                      dedup path_eq (sort_by path_ltb skipped_pointers);
                }),
                [],
              )))

    -- LocalCacheLayout::garbage_collect
    unfoldable pub garbage_collect :
        (PathBuf → Text) → PathBuf → Bool → Bool → Run LocalCacheGarbageCollection
    garbage_collect display root dry_run prune_unavailable_worktrees =
        with_lock disk.cache_operation_lock (
          with_lock disk.worktree_registry_lock (
            with_result
              (load_worktree_registry key display (worktree_registry_path root) disk.registry_file)
              (λ registry.
                with_result (partition_existing_worktrees registry.worktrees) (λ worktrees.
                  with_result (referenced_worktree_oids disk worktrees.0) (λ references.
                    with_result (collect_cache_object_files disk (objects_dir root)) (
                      reclaim root dry_run prune_unavailable_worktrees registry worktrees
                        references))))))
