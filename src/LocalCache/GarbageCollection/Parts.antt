-- ===== src/LocalCache/GarbageCollection/Parts.antt =====
-- How `garbage_collect` of src/local_cache/garbage_collection.rs splits the registered worktrees.
use lfs_cloud.Prelude.{◌≡◌, refl, subst, [], ◌∷◌, List, Result, ok, bind-eq-ok, ok-injective}
use lfs_cloud.LocalCache.{LocalCacheError}
use lfs_cloud.LocalCache.Registry.{LocalCacheWorktreeRegistration}
use lfs_cloud.LocalCache.Disk.{file, dir, other, Found, nothing, failed, found, Disk}
use lfs_cloud.LocalCache.GarbageCollection.{
  Partition, to_active, to_missing, partition_found, partition_existing_worktrees,
}

module _ (disk : Disk) where
  -- The root of a worktree is a directory.
  abbrev pub IsActive : LocalCacheWorktreeRegistration → Type 0
  IsActive r = disk.metadata r.worktree_root ≡ found dir

  -- How registrations are split into active and missing ones.
  pub data Parts : List LocalCacheWorktreeRegistration → Partition → Type 0 where
    parts-nil : Parts [] ([], [])
    parts-active :
        {r : LocalCacheWorktreeRegistration} {rs : List LocalCacheWorktreeRegistration}
        {p : Partition}
        → IsActive r
        → Parts rs p
        → Parts (r ∷ rs) (to_active r p)
    parts-missing :
        {r : LocalCacheWorktreeRegistration} {rs : List LocalCacheWorktreeRegistration}
        {p : Partition}
        → (IsActive r → ⊥)
        → Parts rs p
        → Parts (r ∷ rs) (to_missing r p)

  partition_found-Parts :
      (r : LocalCacheWorktreeRegistration) (rs : List LocalCacheWorktreeRegistration) (f : Found)
      (rest : Result LocalCacheError Partition) (p : Partition)
      → disk.metadata r.worktree_root ≡ f
      → ((q : Partition) → rest ≡ ok q → Parts rs q)
      → partition_found disk r f rest ≡ ok p
      → Parts (r ∷ rs) p
  partition_found-Parts r rs (failed source) rest p e parts h = absurd cc
  partition_found-Parts r rs nothing rest p e parts h =
      let (q, read, same) = bind-eq-ok rest _ h in
      subst (Parts (r ∷ rs)) (ok-injective same)
        (parts-missing (λ active. absurd cc) (parts q read))
  partition_found-Parts r rs (found file) rest p e parts h =
      let (q, read, same) = bind-eq-ok rest _ h in
      subst (Parts (r ∷ rs)) (ok-injective same)
        (parts-missing (λ active. absurd cc) (parts q read))
  partition_found-Parts r rs (found other) rest p e parts h =
      let (q, read, same) = bind-eq-ok rest _ h in
      subst (Parts (r ∷ rs)) (ok-injective same)
        (parts-missing (λ active. absurd cc) (parts q read))
  partition_found-Parts r rs (found dir) rest p e parts h =
      let (q, read, same) = bind-eq-ok rest _ h in
      subst (Parts (r ∷ rs)) (ok-injective same) (parts-active e (parts q read))

  pub partition_existing_worktrees-Parts :
      (rs : List LocalCacheWorktreeRegistration) (p : Partition)
      → partition_existing_worktrees disk rs ≡ ok p
      → Parts rs p
  unfolding partition_existing_worktrees
  partition_existing_worktrees-Parts [] p h = subst (Parts []) (ok-injective h) parts-nil
  partition_existing_worktrees-Parts (r ∷ rs) p h =
      partition_found-Parts r rs (disk.metadata r.worktree_root) _ p refl
        (λ q. partition_existing_worktrees-Parts rs q) h
