-- ===== src/LocalCache/GarbageCollection/Deleted.antt =====
-- Which files the loop of `garbage_collect` in src/local_cache/garbage_collection.rs removes.
use lfs_cloud.Prelude.{
  ◌≡◌, refl, inl, inr, Bool, false, Option, none, some, [], ◌∷◌, List, and_then, Result, ok, err,
  Option-cases, Bool-cases, All, All-append,
}
use mathlib.Core.List.{Memᴰ}
use lfs_cloud.Prelude.Paths.{PathBuf, parent, path_eq}
use lfs_cloud.Lfs.Oid.{LfsOid}
use lfs_cloud.LocalCache.{LocalCacheError}
use lfs_cloud.LocalCache.Registry.{LocalCacheWorktreeRegistry}
use lfs_cloud.LocalCache.Disk.{RemoveDir, removed, left_alone, not_removed, Disk}
use lfs_cloud.LocalCache.Pointers.{is_referenced}
use lfs_cloud.LocalCache.Objects.{LocalCacheGarbageCollectionObject}
use lfs_cloud.LocalCache.GarbageCollection.{
  Effect, file_removed, Run, after_effects, then_run, with_result, with_lock, Sorted,
  directory_removed, saved, remove_empty_directory, remove_shards, remove_empty_cache_shard_dirs,
  delete_cache_object, sort_out, sort_out_all,
}

-- Whatever is said of the files that are removed.
module _ (P : PathBuf → Type 0) where
  abbrev pub OnFiles : Effect → Type 0
  OnFiles (file_removed path) = P path
  OnFiles _ = Unit

  module _ {B : Type 0} where
    pub after_effects-All :
        (es : List Effect) (run : Run B)
        → All OnFiles es
        → All OnFiles run.1
        → All OnFiles (after_effects es run).1
    after_effects-All es (result, fs) = All-append OnFiles es fs

  module _ {A B : Type 0} where
    pub then_run-All :
        (run : Run A) (next : A → Run B)
        → All OnFiles run.1
        → ((a : A) → run.0 ≡ ok a → All OnFiles (next a).1)
        → All OnFiles (then_run run next).1
    then_run-All (err e, es) next first later = first
    then_run-All (ok a, es) next first later = after_effects-All es (next a) first (later a refl)

    pub with_result-All :
        (m : Result LocalCacheError A) (next : A → Run B)
        → ((a : A) → m ≡ ok a → All OnFiles (next a).1)
        → All OnFiles (with_result m next).1
    with_result-All (err e) next later = tt
    with_result-All (ok a) next later = later a refl

  module _ {A : Type 0} where
    pub with_lock-All :
        (lock : Option LocalCacheError) (run : Run A)
        → All OnFiles run.1
        → All OnFiles (with_lock lock run).1
    with_lock-All none run h = h
    with_lock-All (some e) run h = tt

  directory_removed-All :
      (path : PathBuf) (r : RemoveDir) → All OnFiles (directory_removed path r).1
  directory_removed-All path removed = (tt, tt)
  directory_removed-All path left_alone = tt
  directory_removed-All path (not_removed source) = tt

  pub saved-All :
      (registry : LocalCacheWorktreeRegistry) (failure : Option LocalCacheError)
      → All OnFiles (saved registry failure).1
  saved-All registry none = (tt, tt)
  saved-All registry (some e) = tt

  module _ (disk : Disk) where
    remove_shards-All :
        (objects_dir : PathBuf) (second_shard first_shard : Option PathBuf)
        → All OnFiles (remove_shards disk objects_dir second_shard first_shard).1
    remove_shards-All objects_dir none first_shard = tt
    remove_shards-All objects_dir (some second_shard) none = tt
    remove_shards-All objects_dir (some second_shard) (some first_shard) =
        then_run-All (remove_empty_directory disk second_shard) _
          (directory_removed-All second_shard (disk.remove_dir second_shard))
          (λ _ _. elim (Bool-cases (path_eq first_shard objects_dir)) [
            | inl e ↦ rw e tt
            | inr e ↦ rw e (directory_removed-All first_shard (disk.remove_dir first_shard))
          ])

    delete_cache_object-All :
        (objects_dir : PathBuf) (o : LocalCacheGarbageCollectionObject)
        → P o.path
        → All OnFiles (delete_cache_object disk objects_dir o).1
    unfolding delete_cache_object remove_empty_cache_shard_dirs
    delete_cache_object-All objects_dir o p = elim (Option-cases (disk.remove_file o.path)) [
      | inr (source, e) ↦ rw (e, delete_cache_object) tt
      | inl e ↦
          rw (e, delete_cache_object)
            (after_effects-All (file_removed o.path ∷ [])
              (remove_shards disk objects_dir (parent o.path) (and_then (parent o.path) parent))
              (p, tt)
              (remove_shards-All objects_dir (parent o.path) (and_then (parent o.path) parent)))
    ]

    module _ (objects_dir : PathBuf) (dry_run protected : Bool) (referenced : List LfsOid) where
      sort_out-All :
          (o : LocalCacheGarbageCollectionObject) (s : Sorted)
          → (is_referenced o.oid referenced ≡ false
              → protected ≡ false
              → dry_run ≡ false
              → P o.path)
          → All OnFiles (sort_out disk objects_dir dry_run protected referenced o s).1
      unfolding sort_out
      sort_out-All o s removes = elim (Bool-cases (is_referenced o.oid referenced)) [
        | inl e ↦ rw (e, sort_out) tt
        | inr e ↦ elim (Bool-cases protected) [
          | inl f ↦ rw (e, f, sort_out) tt
          | inr f ↦ elim (Bool-cases dry_run) [
            | inl g ↦ rw (e, f, g, sort_out) tt
            | inr g ↦
                rw (e, f, g, sort_out)
                  (then_run-All (delete_cache_object disk objects_dir o) _
                    (delete_cache_object-All objects_dir o (removes e f g)) (λ _ _. tt))
          ]
        ]
      ]

      pub sort_out_all-All :
          (os : List LocalCacheGarbageCollectionObject) (s : Sorted)
          → ((o : LocalCacheGarbageCollectionObject)
              → Memᴰ o os
              → is_referenced o.oid referenced ≡ false
              → protected ≡ false
              → dry_run ≡ false
              → P o.path)
          → All OnFiles (sort_out_all disk objects_dir dry_run protected referenced os s).1
      unfolding sort_out_all
      sort_out_all-All [] s removes = tt
      sort_out_all-All (o ∷ os) s removes =
          then_run-All (sort_out disk objects_dir dry_run protected referenced o s) _
            (sort_out-All o s (removes o (Memᴰ.head refl)))
            (λ next _. sort_out_all-All os next (λ p m. removes p (Memᴰ.tail m)))
