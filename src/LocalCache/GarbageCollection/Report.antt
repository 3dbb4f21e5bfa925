-- ===== src/LocalCache/GarbageCollection/Report.antt =====
-- What a run of `garbage_collect` of src/local_cache/garbage_collection.rs that succeeds has done.
use lfs_cloud.Prelude.{
  ℕ, ◌≡◌, refl, sym, ap, subst, ◌∙◌, Bool, true, false, not, ◌&&◌, Option, none, some, [], ◌∷◌,
  ◌++◌, List, append-nil, if◌then◌else◌, is_empty, length, Result, ok, err, ok-injective, All,
}
use lfs_cloud.Prelude.Text.{Text}
use lfs_cloud.Prelude.Paths.{PathBuf, path_eq_refl, path_ltb}
use lfs_cloud.Prelude.Sorting.{sort_by}
use lfs_cloud.LocalCache.{LocalCacheError, objects_dir, worktree_registry_path}
use lfs_cloud.LocalCache.Registry.{
  LocalCacheWorktreeRegistration, LocalCacheWorktreeRegistry, load_worktree_registry, remove_root,
}
use lfs_cloud.LocalCache.Registry.Pruning.{
  AreDistinct, DifferFrom, load_worktree_registry-AreDistinct,
}
use lfs_cloud.LocalCache.Disk.{Disk}
use lfs_cloud.LocalCache.Pointers.{References, referenced_worktree_oids}
use lfs_cloud.LocalCache.Objects.{Cached, collect_cache_object_files}
use lfs_cloud.LocalCache.GarbageCollection.{
  Effect, registry_saved, Run, with_result, with_lock, Partition, partition_existing_worktrees,
  protects, prune_worktrees, save, saved, nothing_sorted, LocalCacheGarbageCollection, sort_out_all,
  reclaim, garbage_collect,
}
use lfs_cloud.LocalCache.GarbageCollection.Parts.{
  Parts, parts-nil, parts-active, parts-missing, partition_existing_worktrees-Parts,
}
use lfs_cloud.LocalCache.GarbageCollection.Reported.{SortsOut, sort_out_all-SortsOut}
use lfs_cloud.LocalCache.GarbageCollection.Removals.{then_run-eq-ok}

abbrev registry_of : ℕ → List LocalCacheWorktreeRegistration → LocalCacheWorktreeRegistry
registry_of version worktrees = record { version = version; worktrees = worktrees }

module _ (disk : Disk) where
  missing-All :
      (P : LocalCacheWorktreeRegistration → Type 0) (rs : List LocalCacheWorktreeRegistration)
      (p : Partition)
      → Parts disk rs p
      → All P rs
      → All P p.1
  missing-All P rs p parts-nil all_ = tt
  missing-All P rs p (parts-active _ parts) (h, all_) = missing-All P _ _ parts all_
  missing-All P rs p (parts-missing _ parts) (h, all_) = (h, missing-All P _ _ parts all_)

  module _ (key : PathBuf → PathBuf) (version : ℕ) where
    -- Pruning other worktrees keeps one.
    prune_worktrees-keeps :
        (r : LocalCacheWorktreeRegistration) (ms rs kept : List LocalCacheWorktreeRegistration)
        → DifferFrom key r ms
        → prune_worktrees disk key ms (registry_of version rs) ≡ registry_of version kept
        → prune_worktrees disk key ms (registry_of version (r ∷ rs))
          ≡ registry_of version (r ∷ kept)
    unfolding prune_worktrees remove_root
    prune_worktrees-keeps r [] rs kept d h = cc
    prune_worktrees-keeps r (m ∷ ms) rs kept (n, d) h =
        rw n (prune_worktrees-keeps r ms (remove_root key (key m.worktree_root) rs) kept d h)

    prune_worktrees-active :
        (rs : List LocalCacheWorktreeRegistration) (p : Partition)
        → Parts disk rs p
        → AreDistinct key rs
        → prune_worktrees disk key p.1 (registry_of version rs) ≡ registry_of version p.0
    unfolding prune_worktrees remove_root
    prune_worktrees-active rs p parts-nil distinct = refl
    prune_worktrees-active rs p (parts-active {r = r} {rs = ss} {p = q} _ parts) (d, distinct) =
        prune_worktrees-keeps r q.1 ss q.0 (missing-All _ ss q parts d)
          (prune_worktrees-active ss q parts distinct)
    prune_worktrees-active rs p (parts-missing {r = r} {rs = ss} {p = q} _ parts) (d, distinct) =
        let first : remove_root key (key r.worktree_root) (r ∷ ss) ≡ ss =
          rw (path_eq_refl (key r.worktree_root), remove_root) refl in
        ap (λ ts. prune_worktrees disk key q.1 (registry_of version ts)) first
        ∙ prune_worktrees-active ss q parts distinct

  with_result-eq-ok :
      {A B : Type 0} (m : Result LocalCacheError A) (next : A → Run B) {b : B} {es : List Effect}
      → with_result m next ≡ (ok b, es)
      → (a : A) × (m ≡ ok a) × (next a ≡ (ok b, es))
  with_result-eq-ok (err e) next h = absurd cc
  with_result-eq-ok (ok a) next h = (a, refl, h)

  with_lock-eq-ok :
      {A : Type 0} (lock : Option LocalCacheError) (run : Run A) {a : A} {es : List Effect}
      → with_lock lock run ≡ (ok a, es)
      → run ≡ (ok a, es)
  with_lock-eq-ok none run h = h
  with_lock-eq-ok (some e) run h = absurd cc

  saved-eq-ok :
      (registry : LocalCacheWorktreeRegistry) (failure : Option LocalCacheError) {u : Unit {0}}
      {es : List Effect}
      → saved registry failure ≡ (ok u, es)
      → es ≡ registry_saved registry ∷ []
  saved-eq-ok registry none h = sym (ap (λ r. r.1) h)
  saved-eq-ok registry (some e) h = absurd cc

  -- What has been saved, if it had to be.
  save_if-eq-ok :
      (b : Bool) (registry : LocalCacheWorktreeRegistry) {u : Unit {0}} {es : List Effect}
      → (if b then save disk registry else (ok tt, [])) ≡ (ok u, es)
      → es ≡ (if b then registry_saved registry ∷ [] else [])
  save_if-eq-ok false registry h = sym (ap (λ r. r.1) h)
  save_if-eq-ok true registry h = saved-eq-ok registry (disk.save_registry registry) h

  saves_active :
      (key : PathBuf → PathBuf) (dry_run prune : Bool) (registry kept : LocalCacheWorktreeRegistry)
      (missing : List LocalCacheWorktreeRegistration)
      → prune_worktrees disk key missing registry ≡ kept
      → (if not dry_run && (prune && not (is_empty (if prune then missing else [])))
          then registry_saved (prune_worktrees disk key (if prune then missing else []) registry)
            ∷ []
          else [])
        ≡ (if not dry_run && (prune && not (is_empty (if prune then missing else [])))
            then registry_saved kept ∷ []
            else [])
  saves_active key true prune registry kept missing e = refl
  saves_active key false false registry kept missing e = refl
  saves_active key false true registry kept missing e = rw e refl

  module _ (display : PathBuf → Text) (key : PathBuf → PathBuf) (root : PathBuf)
      (dry_run prune : Bool) where
    -- The report of a run and its effects, from the registry that was loaded, how its worktrees split,
    -- what those that are there refer to, and what the cache holds.
    pub record IsReport (report : LocalCacheGarbageCollection) (effects : List Effect)
        : Type 0 where
      pub registry : LocalCacheWorktreeRegistry
      pub worktrees : Partition
      pub references : References
      pub cached : Cached
      pub removals : List Effect
      pub loaded :
          load_worktree_registry key display (worktree_registry_path root) disk.registry_file
          ≡ ok registry
      pub split : partition_existing_worktrees disk registry.worktrees ≡ ok worktrees
      pub scanned : referenced_worktree_oids disk worktrees.0 ≡ ok references
      pub listed : collect_cache_object_files disk (objects_dir root) ≡ ok cached
      pub counted : report.active_worktree_count ≡ length worktrees.0
      pub unavailable : report.unavailable_worktrees ≡ worktrees.1
      pub pruned : report.pruned_worktrees ≡ (if prune then worktrees.1 else [])
      -- First the worktrees that are there become the registry, if others are to be pruned.
      pub saves :
          effects
          ≡ (if not dry_run && (prune && not (is_empty (if prune then worktrees.1 else [])))
              then registry_saved (record registry { worktrees = worktrees.0 }) ∷ []
              else [])
            ++ removals
      -- Then the objects are sorted out, and those that are reported as deleted are removed.
      pub sorted_out :
          SortsOut dry_run
            (protects worktrees.1 prune)
            references.0
            (sort_by (λ o p. path_ltb o.path p.path) cached.0)
            nothing_sorted
            report.sorted
            removals

    reclaim-IsReport :
        (registry : LocalCacheWorktreeRegistry) (worktrees : Partition) (references : References)
        (cached : Cached) (report : LocalCacheGarbageCollection) (effects : List Effect)
        → load_worktree_registry key display (worktree_registry_path root) disk.registry_file
          ≡ ok registry
        → partition_existing_worktrees disk registry.worktrees ≡ ok worktrees
        → referenced_worktree_oids disk worktrees.0 ≡ ok references
        → collect_cache_object_files disk (objects_dir root) ≡ ok cached
        → reclaim disk key root dry_run prune registry worktrees references cached
          ≡ (ok report, effects)
        → IsReport report effects
    unfolding reclaim
    reclaim-IsReport registry worktrees references cached report effects loaded split scanned listed
          h =
        let pruned = if prune then worktrees.1 else [] in
        let (_, saves, rest, saved_, next, both) =
          then_run-eq-ok
            (if not dry_run && (prune && not (is_empty pruned))
              then save disk (prune_worktrees disk key pruned registry)
              else (ok tt, []))
            _ h in
        let (sorted, removals, none_, all_, same, both') =
          then_run-eq-ok
            (sort_out_all disk (objects_dir root) dry_run (protects worktrees.1 prune) references.0
              (sort_by (λ o p. path_ltb o.path p.path) cached.0) nothing_sorted)
            _ next in
        let reported = ok-injective (ap (λ r. r.0) same) in
        let ends : rest ≡ removals = rw (both', ← ap (λ r. r.1) same) (append-nil removals) in
        let active =
          prune_worktrees-active key registry.version registry.worktrees worktrees
            (partition_existing_worktrees-Parts disk registry.worktrees worktrees split)
            (load_worktree_registry-AreDistinct key display (worktree_registry_path root)
              disk.registry_file registry loaded) in
        record {
          registry = registry;
          worktrees = worktrees;
          references = references;
          cached = cached;
          removals = removals;
          loaded = loaded;
          split = split;
          scanned = scanned;
          listed = listed;
          counted = sym (ap (λ r. r.active_worktree_count) reported);
          unavailable = sym (ap (λ r. r.unavailable_worktrees) reported);
          pruned = sym (ap (λ r. r.pruned_worktrees) reported);
          saves =
              rw
                (
                  both,
                  ends,
                  save_if-eq-ok _ _ saved_,
                  saves_active key dry_run prune registry _ worktrees.1 active,
                )
                refl;
          sorted_out =
              subst
                (λ t.
                  SortsOut dry_run (protects worktrees.1 prune) references.0
                    (sort_by (λ o p. path_ltb o.path p.path) cached.0) nothing_sorted t removals)
                (ap (λ r. r.sorted) reported)
                (sort_out_all-SortsOut disk (objects_dir root) dry_run (protects worktrees.1 prune)
                  references.0 _ nothing_sorted sorted removals all_);
        }

    -- A garbage collection that succeeds first saves the registry with exactly the worktrees that are
    -- there, if it is not a dry run, pruning is asked for and there are others; then it removes the
    -- files that it reports as deleted, in this order. The objects in use are reported as retained;
    -- of the rest all are protected while a worktree is unavailable and not pruned, and all are
    -- unreferenced otherwise; the deleted ones are none in a dry run and the unreferenced ones if not;
    -- each list has the order of the paths.
    pub garbage_collect-IsReport :
        (report : LocalCacheGarbageCollection) (effects : List Effect)
        → garbage_collect disk key display root dry_run prune ≡ (ok report, effects)
        → IsReport report effects
    unfolding garbage_collect
    garbage_collect-IsReport report effects h =
        let h1 = with_lock-eq-ok disk.cache_operation_lock _ h in
        let h2 = with_lock-eq-ok disk.worktree_registry_lock _ h1 in
        let (registry, loaded, h3) =
          with_result-eq-ok
            (load_worktree_registry key display (worktree_registry_path root) disk.registry_file) _
            h2 in
        let (worktrees, split, h4) =
          with_result-eq-ok (partition_existing_worktrees disk registry.worktrees) _ h3 in
        let (references, scanned, h5) =
          with_result-eq-ok (referenced_worktree_oids disk worktrees.0) _ h4 in
        let (cached, listed, h6) =
          with_result-eq-ok (collect_cache_object_files disk (objects_dir root)) _ h5 in
        reclaim-IsReport registry worktrees references cached report effects loaded split scanned
          listed h6
