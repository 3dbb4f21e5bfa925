-- ===== src/LocalCache/GarbageCollection/Reported.antt =====
-- What `garbage_collect` of src/local_cache/garbage_collection.rs reports, and that it is what was done.
use lfs_cloud.Prelude.{
  ◌≡◌, refl, sym, ap, subst, ◌∙◌, inl, inr, Bool, true, false, not, ◌&&◌, [], ◌∷◌, ◌++◌, List, map,
  append-nil, append_assoc, if◌then◌else◌, ok, ok-injective, Bool-cases,
}
use lfs_cloud.Prelude.Paths.{PathBuf}
use lfs_cloud.Lfs.Oid.{LfsOid}
use lfs_cloud.LocalCache.Disk.{Disk}
use lfs_cloud.LocalCache.Pointers.{is_referenced}
use lfs_cloud.LocalCache.Objects.{LocalCacheGarbageCollectionObject}
use lfs_cloud.LocalCache.GarbageCollection.{
  Effect, then_run, delete_cache_object, Sorted, retain_object, protect_object, leave_object,
  delete_object, sort_out, sort_out_all,
}
use lfs_cloud.LocalCache.GarbageCollection.Removals.{
  removed_files, removed_files-append, then_run-eq-ok, delete_cache_object_files,
}

module _ {A : Type 0} where
  -- Iterator::filter
  abbrev pub only : (A → Bool) → List A → List A
  only p [] = []
  only p (x ∷ xs) = let rest = only p xs in if p x then x ∷ rest else rest

  only-first :
      (b : Bool) (x : A) (xs : List A)
      → (if b then x ∷ [] else []) ++ xs ≡ (if b then x ∷ xs else xs)
  only-first true x xs = refl
  only-first false x xs = refl

  only-then :
      (p : A → Bool) (x : A) (xs before next after : List A)
      → next ≡ before ++ only p (x ∷ [])
      → after ≡ next ++ only p xs
      → after ≡ before ++ only p (x ∷ xs)
  only-then p x xs before next after first rest =
      rw (rest, first, append_assoc, only-first (p x) x (only p xs)) refl

  map-only :
      {B : Type 0} (f : A → B) (b : Bool) (x : A) (xs : List A)
      → map f (if b then x ∷ [] else []) ++ map f xs ≡ map f (if b then x ∷ xs else xs)
  map-only f true x xs = refl
  map-only f false x xs = refl

  after_nothing : (xs : List A) → xs ≡ xs ++ []
  after_nothing xs = sym (append-nil xs)

module _ (dry_run protected : Bool) (referenced : List LfsOid) where
  abbrev pub in_use : LocalCacheGarbageCollectionObject → Bool
  in_use o = is_referenced o.oid referenced

  -- Not in use, but perhaps used by a worktree that is unavailable.
  abbrev pub is_protected : LocalCacheGarbageCollectionObject → Bool
  is_protected o = not (in_use o) && protected

  abbrev pub is_unreferenced : LocalCacheGarbageCollectionObject → Bool
  is_unreferenced o = not (in_use o) && not protected

  abbrev pub is_deleted : LocalCacheGarbageCollectionObject → Bool
  is_deleted o = is_unreferenced o && not dry_run

  -- How objects have been sorted out, from `before` to `after`, and which files were removed.
  pub record SortsOut (os : List LocalCacheGarbageCollectionObject) (before after : Sorted)
      (es : List Effect) : Type 0 where
    pub retained : after.retained_objects ≡ before.retained_objects ++ only in_use os
    pub kept : after.protected_objects ≡ before.protected_objects ++ only is_protected os
    pub unreferenced :
        after.unreferenced_objects ≡ before.unreferenced_objects ++ only is_unreferenced os
    pub deleted : after.deleted_objects ≡ before.deleted_objects ++ only is_deleted os
    pub removals : removed_files es ≡ map (λ o. o.path) (only is_deleted os)

  SortsOut-then :
      (o : LocalCacheGarbageCollectionObject) (os : List LocalCacheGarbageCollectionObject)
      (before next after : Sorted) (es fs : List Effect)
      → SortsOut (o ∷ []) before next es
      → SortsOut os next after fs
      → SortsOut (o ∷ os) before after (es ++ fs)
  SortsOut-then o os before next after es fs one more = record {
    retained = only-then in_use o os _ _ _ one.retained more.retained;
    kept = only-then is_protected o os _ _ _ one.kept more.kept;
    unreferenced = only-then is_unreferenced o os _ _ _ one.unreferenced more.unreferenced;
    deleted = only-then is_deleted o os _ _ _ one.deleted more.deleted;
    removals =
        rw (removed_files-append es fs, one.removals, more.removals)
          (map-only (λ p. p.path) (is_deleted o) o (only is_deleted os));
  }

module _ (disk : Disk) where
  module _ (objects_dir : PathBuf) where
    stepped :
        (dry_run protected : Bool) (referenced : List LfsOid)
        (o : LocalCacheGarbageCollectionObject) (before after next : Sorted) (es fs : List Effect)
        → sort_out disk objects_dir dry_run protected referenced o before ≡ (ok after, es)
        → sort_out disk objects_dir dry_run protected referenced o before ≡ (ok next, fs)
        → SortsOut dry_run protected referenced (o ∷ []) before next fs
        → SortsOut dry_run protected referenced (o ∷ []) before after es
    stepped dry_run protected referenced o before after next es fs h e sorted =
        let same : next ≡ after = ok-injective (ap (λ r. r.0) (sym e ∙ h)) in
        let same_effects : fs ≡ es = ap (λ r. r.1) (sym e ∙ h) in rw (← same, ← same_effects) sorted

    unused-SortsOut :
        (dry_run protected : Bool) (referenced : List LfsOid)
        (o : LocalCacheGarbageCollectionObject) (before after : Sorted) (es : List Effect)
        → is_referenced o.oid referenced ≡ false
        → sort_out disk objects_dir dry_run protected referenced o before ≡ (ok after, es)
        → SortsOut dry_run protected referenced (o ∷ []) before after es
    unfolding sort_out
    unused-SortsOut dry_run true referenced o before after es e h =
        stepped dry_run true referenced o before after (protect_object o before) es [] h
          (rw (e, sort_out) refl)
          (record {
            retained = rw e (after_nothing before.retained_objects);
            kept = rw e refl;
            unreferenced = rw e (after_nothing before.unreferenced_objects);
            deleted = rw e (after_nothing before.deleted_objects);
            removals = rw e refl;
          })
    unused-SortsOut true false referenced o before after es e h =
        stepped true false referenced o before after (leave_object o before) es [] h
          (rw (e, sort_out) refl)
          (record {
            retained = rw e (after_nothing before.retained_objects);
            kept = rw e (after_nothing before.protected_objects);
            unreferenced = rw e refl;
            deleted = rw e (after_nothing before.deleted_objects);
            removals = rw e refl;
          })
    unused-SortsOut false false referenced o before after es e h =
        let step : sort_out disk objects_dir false false referenced o before
            ≡ then_run (delete_cache_object disk objects_dir o)
                (λ _. (ok (delete_object o before), [])) =
          rw (e, sort_out) refl in
        let (done, removals, rest, deleted, same, both) =
          then_run-eq-ok (delete_cache_object disk objects_dir o) _ (sym step ∙ h) in
        let files : removed_files es ≡ o.path ∷ [] =
          rw
            (
              both,
              removed_files-append,
              ← ap (λ r. r.1) same,
              delete_cache_object_files disk objects_dir o deleted,
            )
            refl in
        subst (λ s. SortsOut false false referenced (o ∷ []) before s es)
          (ok-injective (ap (λ r. r.0) same))
          (record {
            retained = rw e (after_nothing before.retained_objects);
            kept = rw e (after_nothing before.protected_objects);
            unreferenced = rw e refl;
            deleted = rw e refl;
            removals = rw (e, files) refl;
          })

    sort_out-SortsOut :
        (dry_run protected : Bool) (referenced : List LfsOid)
        (o : LocalCacheGarbageCollectionObject) (before after : Sorted) (es : List Effect)
        → sort_out disk objects_dir dry_run protected referenced o before ≡ (ok after, es)
        → SortsOut dry_run protected referenced (o ∷ []) before after es
    unfolding sort_out
    sort_out-SortsOut dry_run protected referenced o before after es h =
        elim (Bool-cases (is_referenced o.oid referenced)) [
          | inl e ↦
              stepped dry_run protected referenced o before after (retain_object o before) es [] h
                (rw (e, sort_out) refl)
                (record {
                  retained = rw e refl;
                  kept = rw e (after_nothing before.protected_objects);
                  unreferenced = rw e (after_nothing before.unreferenced_objects);
                  deleted = rw e (after_nothing before.deleted_objects);
                  removals = rw e refl;
                })
          | inr e ↦ unused-SortsOut dry_run protected referenced o before after es e h
        ]

    pub sort_out_all-SortsOut :
        (dry_run protected : Bool) (referenced : List LfsOid)
        (os : List LocalCacheGarbageCollectionObject) (before after : Sorted) (es : List Effect)
        → sort_out_all disk objects_dir dry_run protected referenced os before ≡ (ok after, es)
        → SortsOut dry_run protected referenced os before after es
    unfolding sort_out_all
    sort_out_all-SortsOut dry_run protected referenced [] before after es h =
        let same : before ≡ after = ok-injective (ap (λ r. r.0) h) in
        let none_ : [] ≡ es = ap (λ r. r.1) h in
        rw (← same, ← none_)
          (record {
            retained = after_nothing before.retained_objects;
            kept = after_nothing before.protected_objects;
            unreferenced = after_nothing before.unreferenced_objects;
            deleted = after_nothing before.deleted_objects;
            removals = refl;
          })
    sort_out_all-SortsOut dry_run protected referenced (o ∷ os) before after es h =
        let (next, first, rest, one, more, both) =
          then_run-eq-ok (sort_out disk objects_dir dry_run protected referenced o before) _ h in
        rw both (
          SortsOut-then dry_run protected referenced o os before next after first rest
            (sort_out-SortsOut dry_run protected referenced o before next first one)
            (sort_out_all-SortsOut dry_run protected referenced os next after rest more))
