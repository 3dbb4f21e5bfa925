-- ===== src/LocalCache/GarbageCollection/Removals.antt =====
-- Which files a step of src/local_cache/garbage_collection.rs removes.
use lfs_cloud.Prelude.{
  ◌≡◌, refl, sym, ap, ◌∙◌, inl, inr, Option, none, some, [], ◌∷◌, ◌++◌, List, and_then, ok, err,
  Option-cases, Bool-cases,
}
use lfs_cloud.Prelude.Text.{codes}
use lfs_cloud.Prelude.Paths.{PathBuf, parent, path_eq}
use lfs_cloud.LocalCache.{io, objects_dir}
use lfs_cloud.LocalCache.Disk.{RemoveDir, removed, left_alone, not_removed, Disk}
use lfs_cloud.LocalCache.Objects.{LocalCacheGarbageCollectionObject}
use lfs_cloud.LocalCache.GarbageCollection.{
  Effect, registry_saved, file_removed, dir_removed, Run, after_effects, then_run,
  directory_removed, remove_empty_directory, remove_shards, remove_empty_cache_shard_dirs,
  delete_cache_object,
}

-- The files that were removed, in order.
abbrev pub removed_files : List Effect → List PathBuf
removed_files [] = []
removed_files (file_removed path ∷ es) = path ∷ removed_files es
removed_files (dir_removed _ ∷ es) = removed_files es
removed_files (registry_saved _ ∷ es) = removed_files es

pub removed_files-append :
    (es fs : List Effect) → removed_files (es ++ fs) ≡ removed_files es ++ removed_files fs
removed_files-append [] fs = refl
removed_files-append (file_removed path ∷ es) fs = ap (λ ps. path ∷ ps) (removed_files-append es fs)
removed_files-append (dir_removed _ ∷ es) fs = removed_files-append es fs
removed_files-append (registry_saved _ ∷ es) fs = removed_files-append es fs

pair_lem : {A B : Type 0} {p : A × B} {a : A} {b : B} → p.0 ≡ a → p.1 ≡ b → p ≡ (a, b)
pair_lem e f = cc

module _ {A B : Type 0} where
  pub then_run-eq-ok :
      (run : Run A) (next : A → Run B) {b : B} {es : List Effect}
      → then_run run next ≡ (ok b, es)
      → (a : A) × (first : List Effect) × (rest : List Effect) × (run ≡ (ok a, first))
        × (next a ≡ (ok b, rest))
        × (es ≡ first ++ rest)
  then_run-eq-ok (err e, es) next h = absurd cc
  then_run-eq-ok (ok a, es) next h =
      (a, es, (next a).1, refl, pair_lem (ap (λ r. r.0) h) refl, sym (ap (λ r. r.1) h))

module _ (disk : Disk) where
  directory_removed_files :
      (path : PathBuf) (r : RemoveDir) → removed_files (directory_removed path r).1 ≡ []
  directory_removed_files path removed = refl
  directory_removed_files path left_alone = refl
  directory_removed_files path (not_removed source) = refl

  then_run_files :
      {A B : Type 0} (run : Run A) (next : A → Run B)
      → removed_files run.1 ≡ []
      → ((a : A) → removed_files (next a).1 ≡ [])
      → removed_files (then_run run next).1 ≡ []
  then_run_files (err e, es) next first rest = first
  then_run_files (ok a, es) next first rest =
      rw (removed_files-append es (next a).1, first, rest a) refl

  remove_shards_files :
      (objects_dir : PathBuf) (second_shard first_shard : Option PathBuf)
      → removed_files (remove_shards disk objects_dir second_shard first_shard).1 ≡ []
  remove_shards_files objects_dir none first_shard = refl
  remove_shards_files objects_dir (some second_shard) none = refl
  remove_shards_files objects_dir (some second_shard) (some first_shard) =
      then_run_files (remove_empty_directory disk second_shard) _
        (directory_removed_files second_shard (disk.remove_dir second_shard))
        (λ _. elim (Bool-cases (path_eq first_shard objects_dir)) [
          | inl e ↦ rw e refl
          | inr e ↦ rw e (directory_removed_files first_shard (disk.remove_dir first_shard))
        ])

  pub delete_cache_object_files :
      (objects_dir : PathBuf) (o : LocalCacheGarbageCollectionObject) {es : List Effect}
      → delete_cache_object disk objects_dir o ≡ (ok tt, es)
      → removed_files es ≡ o.path ∷ []
  unfolding delete_cache_object remove_empty_cache_shard_dirs
  delete_cache_object_files objects_dir o h = elim (Option-cases (disk.remove_file o.path)) [
    | inr (source, e) ↦
        let failed : delete_cache_object disk objects_dir o ≡ (
          err (io (codes "failed to remove unreferenced local cache object") o.path source),
          [],
        ) =
          rw (e, delete_cache_object) refl in
        absurd cc
    | inl e ↦
        let shards =
          remove_shards disk objects_dir (parent o.path) (and_then (parent o.path) parent) in
        let done : delete_cache_object disk objects_dir o
            ≡ after_effects (file_removed o.path ∷ []) shards =
          rw (e, delete_cache_object) refl in
        rw
          (
            ← ap (λ r. r.1) (sym done ∙ h),
            remove_shards_files objects_dir (parent o.path) (and_then (parent o.path) parent),
          )
          refl
  ]
