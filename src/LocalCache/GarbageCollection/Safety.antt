-- ===== src/LocalCache/GarbageCollection/Safety.antt =====
-- That `garbage_collect` of src/local_cache/garbage_collection.rs removes no object that is in use.
use lfs_cloud.Prelude.{
  ◌≡◌, sym, subst, ◌⊎◌, inl, inr, Bool, true, false, not, ◌&&◌, [], List, if◌then◌else◌, is_empty,
  ok, Bool-cases, All, All-Mem, arith,
}
use mathlib.Core.List.{Memᴰ}
use lfs_cloud.Prelude.Text.{Text}
use lfs_cloud.Prelude.Paths.{PathBuf, path_ltb}
use lfs_cloud.Prelude.Sorting.{sort_by, sort_by-Mem}
use lfs_cloud.Lfs.Oid.{LfsOid}
use lfs_cloud.LocalCache.{objects_dir, worktree_registry_path}
use lfs_cloud.LocalCache.Registry.{
  LocalCacheWorktreeRegistration, LocalCacheWorktreeRegistry, load_worktree_registry,
}
use lfs_cloud.LocalCache.Disk.{Disk}
use lfs_cloud.LocalCache.Pointers.{References, referenced_worktree_oids}
use lfs_cloud.LocalCache.Pointers.Referenced.{RefersTo, referenced_worktree_oids-contains}
use lfs_cloud.LocalCache.Objects.{Cached, collect_cache_object_files}
use lfs_cloud.LocalCache.Objects.Places.{IsPlaced, collect_cache_object_files-AllPlaced}
use lfs_cloud.LocalCache.GarbageCollection.{
  file_removed, Partition, partition_existing_worktrees, protects, prune_worktrees, save,
  nothing_sorted, sort_out_all, reclaim, garbage_collect,
}
use lfs_cloud.LocalCache.GarbageCollection.Parts.{
  IsActive, Parts, parts-nil, parts-active, parts-missing, partition_existing_worktrees-Parts,
}
use lfs_cloud.LocalCache.GarbageCollection.Deleted.{
  OnFiles, then_run-All, with_result-All, with_lock-All, saved-All, sort_out_all-All,
}

module _ (disk : Disk) where
  -- Each worktree that is there is scanned, and if none is missing all are there.
  scanned :
      {rs : List LocalCacheWorktreeRegistration} {p : Partition}
      (r : LocalCacheWorktreeRegistration)
      → Parts disk rs p
      → Memᴰ r rs
      → IsActive disk r
      → Memᴰ r p.0
  scanned r parts-nil m active = elim m [ ]
  scanned r (parts-active _ parts) m active = elim m [
    | Memᴰ.head same ↦ Memᴰ.head same
    | Memᴰ.tail n ↦ Memᴰ.tail (scanned r parts n active)
  ]
  scanned r (parts-missing gone parts) m active = elim m [
    | Memᴰ.head same ↦ absurd (gone (subst (IsActive disk) same active))
    | Memᴰ.tail n ↦ scanned r parts n active
  ]

  all-IsActive :
      {rs : List LocalCacheWorktreeRegistration} {p : Partition}
      → Parts disk rs p
      → is_empty p.1 ≡ true
      → (r : LocalCacheWorktreeRegistration) → Memᴰ r rs
      → IsActive disk r
  all-IsActive parts-nil h r m = elim m [ ]
  all-IsActive (parts-active there parts) h r m = elim m [
    | Memᴰ.head same ↦ subst (IsActive disk) (sym same) there
    | Memᴰ.tail n ↦ all-IsActive parts h r n
  ]
  all-IsActive (parts-missing gone parts) h r m = absurd cc

  save_if-All :
      (P : PathBuf → Type 0) (b : Bool) (registry : LocalCacheWorktreeRegistry)
      → All (OnFiles P) (if b then save disk registry else (ok tt, [])).1
  save_if-All P true registry = saved-All P registry (disk.save_registry registry)
  save_if-All P false registry = tt

  module _ (display : PathBuf → Text) (key : PathBuf → PathBuf) (root : PathBuf) where
    -- A removal of a file is justified: its shard directories and its name give an object, to which
    -- no worktree that is there refers, and all worktrees are there or those that are not are to be pruned.
    pub record IsJustified (dry_run prune : Bool) (path : PathBuf) : Type 0 where
      pub oid : LfsOid
      pub registry : LocalCacheWorktreeRegistry
      pub placed : IsPlaced (objects_dir root) path oid
      pub not_dry : dry_run ≡ false
      pub loaded :
          load_worktree_registry key display (worktree_registry_path root) disk.registry_file
          ≡ ok registry
      pub available :
          ((r : LocalCacheWorktreeRegistration) → Memᴰ r registry.worktrees → IsActive disk r)
          ⊎ (prune ≡ true)
      pub unreferenced :
          (r : LocalCacheWorktreeRegistration)
          → Memᴰ r registry.worktrees
          → IsActive disk r
          → RefersTo disk r oid
          → ⊥

    removals-IsJustified :
        (dry_run prune : Bool) (registry : LocalCacheWorktreeRegistry) (worktrees : Partition)
        (references : References) (cached : Cached)
        → load_worktree_registry key display (worktree_registry_path root) disk.registry_file
          ≡ ok registry
        → partition_existing_worktrees disk registry.worktrees ≡ ok worktrees
        → referenced_worktree_oids disk worktrees.0 ≡ ok references
        → collect_cache_object_files disk (objects_dir root) ≡ ok cached
        → All
            (OnFiles (IsJustified dry_run prune))
            (sort_out_all disk
              (objects_dir root)
              dry_run
              (protects worktrees.1 prune)
              references.0
              (sort_by (λ o p. path_ltb o.path p.path) cached.0)
              nothing_sorted).1
    removals-IsJustified dry_run prune registry worktrees references cached loaded split read
          listed =
        let parts = partition_existing_worktrees-Parts disk registry.worktrees worktrees split in
        sort_out_all-All (IsJustified dry_run prune) disk (objects_dir root) dry_run
          (protects worktrees.1 prune) references.0
          (sort_by (λ o p. path_ltb o.path p.path) cached.0) nothing_sorted
          (λ o m unreferenced unprotected not_dry. record {
            oid = o.oid;
            registry = registry;
            placed =
                All-Mem (λ p. IsPlaced (objects_dir root) p.path p.oid) cached.0
                  (collect_cache_object_files-AllPlaced disk (objects_dir root) cached listed)
                  (sort_by-Mem (λ o p. path_ltb o.path p.path) o cached.0 m);
            not_dry = not_dry;
            loaded = loaded;
            available = elim (Bool-cases prune) [
              | inl e ↦ inr e
              | inr e ↦ inl (all-IsActive parts (ground arith))
            ];
            unreferenced = λ r registered active refers.
                let used =
                  referenced_worktree_oids-contains disk r o.oid worktrees.0 references
                    (scanned r parts registered active) refers read in
                absurd cc;
          })

    reclaim-IsJustified :
        (dry_run prune : Bool) (registry : LocalCacheWorktreeRegistry) (worktrees : Partition)
        (references : References) (cached : Cached)
        → load_worktree_registry key display (worktree_registry_path root) disk.registry_file
          ≡ ok registry
        → partition_existing_worktrees disk registry.worktrees ≡ ok worktrees
        → referenced_worktree_oids disk worktrees.0 ≡ ok references
        → collect_cache_object_files disk (objects_dir root) ≡ ok cached
        → All
            (OnFiles (IsJustified dry_run prune))
            (reclaim disk key root dry_run prune registry worktrees references cached).1
    unfolding reclaim
    reclaim-IsJustified dry_run prune registry worktrees references cached loaded split scanned
          listed =
        let P = IsJustified dry_run prune in
        let pruned = if prune then worktrees.1 else [] in
        then_run-All P _ _
          (save_if-All P (not dry_run && (prune && not (is_empty pruned)))
            (prune_worktrees disk key pruned registry))
          (λ _ _.
            then_run-All P _ _
              (removals-IsJustified dry_run prune registry worktrees references cached loaded split
                scanned listed)
              (λ _ _. tt))

    -- Every file that a garbage collection removes lies in the two shard directories of an object, under
    -- a name that `LfsOid::new` reads as the identifier of that object, be it spelled canonically or not;
    -- no registered worktree whose root is a directory has a pointer file of this object among the
    -- files that git tracks as Git LFS files; either the roots of all registered worktrees are
    -- directories, or pruning the others was asked for; and the run is not a dry one.
    pub garbage_collect-IsJustified :
        (dry_run prune : Bool) (path : PathBuf)
        → Memᴰ (file_removed path) (garbage_collect disk key display root dry_run prune).1
        → IsJustified dry_run prune path
    unfolding garbage_collect
    garbage_collect-IsJustified dry_run prune path =
        let P = IsJustified dry_run prune in
        All-Mem (OnFiles P) _ (
          with_lock-All P disk.cache_operation_lock _ (
            with_lock-All P disk.worktree_registry_lock _ (
              with_result-All P (load_worktree_registry key display _ disk.registry_file) _
                (λ registry loaded.
                  with_result-All P (partition_existing_worktrees disk registry.worktrees) _
                    (λ worktrees split.
                      with_result-All P (referenced_worktree_oids disk worktrees.0) _
                        (λ references scanned.
                          with_result-All P (collect_cache_object_files disk (objects_dir root)) _
                            (λ cached.
                              reclaim-IsJustified dry_run prune registry worktrees references cached
                                loaded split scanned)))))))
