-- ===== src/LocalCache/Registry/Registered.antt =====
-- What `register_worktree` of src/local_cache/registry.rs changes in the registry.
use lfs_cloud.Prelude.{
  some-injective, ◌≡◌, refl, sym, ap, subst, ◌∙◌, ◌⊎◌, inl, inr, Option, none, some, [], ◌∷◌, ◌++◌,
  ok, err, ◌>>◌, bind-eq-ok, Result-cases, Option-cases, Bool-cases,
}
use lfs_cloud.Prelude.Text.{Text}
use lfs_cloud.Prelude.Paths.{PathBuf}
use lfs_cloud.LocalCache.{LocalCacheError}
use lfs_cloud.LocalCache.Registry.{
  LocalCacheWorktreeRegistration, LocalCacheWorktreeRegistry, Status, added, updated, unchanged,
  RegistryFile, validate, registration_eq, sort_worktrees, replace_worktree, upsert_worktree,
  load_worktree_registry, load_locked, saved_or, register_loaded, register_worktree,
}
use lfs_cloud.LocalCache.Registry.Pruning.{AreDistinct, load_worktree_registry-AreDistinct}
use lfs_cloud.LocalCache.Registry.Replaced.{
  Registers, sort_worktrees-Registers, replace_worktree-Registers, append-Registers,
}

module _ (key : PathBuf → PathBuf) where
  upsert_worktree-Registers :
      (r : LocalCacheWorktreeRegistration) (before after : LocalCacheWorktreeRegistry)
      (status : Status)
      → AreDistinct key before.worktrees
      → upsert_worktree key r before ≡ (after, status)
      → (status ≡ unchanged) ⊎ Registers key r before.worktrees after.worktrees
  unfolding upsert_worktree
  upsert_worktree-Registers r before after status ds h =
      elim (Option-cases (replace_worktree key r before.worktrees)) [
        | inl e ↦
            let step : upsert_worktree key r before ≡ (
              record before { worktrees = sort_worktrees key (before.worktrees ++ r ∷ []) },
              added,
            ) =
              rw (e, upsert_worktree) refl in
            inr (
              subst (λ a. Registers key r before.worktrees a.worktrees)
                (ap (λ q. q.0) (sym step ∙ h))
                (sort_worktrees-Registers key r before.worktrees (before.worktrees ++ r ∷ [])
                  (append-Registers key r before.worktrees ds e)))
        | inr ((existing, ws), e) ↦ elim (Bool-cases (registration_eq existing r)) [
          | inl f ↦
              let step : upsert_worktree key r before ≡ (before, unchanged) =
                rw (e, f, upsert_worktree) refl in
              inl (sym (ap (λ q. q.1) (sym step ∙ h)))
          | inr f ↦
              let step : upsert_worktree key r before
                  ≡ (record before { worktrees = sort_worktrees key ws }, updated) =
                rw (e, f, upsert_worktree) refl in
              inr (
                subst (λ a. Registers key r before.worktrees a.worktrees)
                  (ap (λ q. q.0) (sym step ∙ h))
                  (sort_worktrees-Registers key r before.worktrees ws
                    (replace_worktree-Registers key r existing before.worktrees ws ds e)))
        ]
      ]

  saved_lem :
      {A : Type 0} (registry after : LocalCacheWorktreeRegistry) (failure : Option LocalCacheError)
      (a : A)
      → (saved_or failure a registry).1 ≡ some after
      → registry ≡ after
  saved_lem registry after none a h = some-injective h
  saved_lem registry after (some e) a h = absurd cc

  module _ (display : PathBuf → Text) (path : PathBuf) (lock : Option LocalCacheError)
      (registry_file : RegistryFile)
      (save : LocalCacheWorktreeRegistry → Option LocalCacheError) where
    register_loaded_saves :
        (registry after : LocalCacheWorktreeRegistry) (status : Status)
        → (register_loaded key display path lock registry_file save (registry, status)).1
          ≡ some after
        → (status ≡ unchanged → ⊥) × (registry ≡ after)
    register_loaded_saves registry after unchanged h = absurd cc
    register_loaded_saves registry after added h =
        (λ e. absurd cc, saved_lem registry after (save registry) added h)
    register_loaded_saves registry after updated h =
        (λ e. absurd cc, saved_lem registry after (save registry) updated h)

    locked_lem :
        (l : Option LocalCacheError) (before : LocalCacheWorktreeRegistry)
        → load_locked key display path l registry_file save ≡ ok before
        → load_worktree_registry key display path registry_file ≡ ok before
    locked_lem none before h = h
    locked_lem (some e) before h = absurd cc

    -- Whatever registry a registration saves: its worktrees have different roots, the registered one is
    -- among them, and the others are those of the registry that was loaded that have another root.
    pub register_worktree-Registers :
        (r : LocalCacheWorktreeRegistration) (after : LocalCacheWorktreeRegistry)
        → (register_worktree key display path lock registry_file save r).1 ≡ some after
        → (before : LocalCacheWorktreeRegistry) × (load_worktree_registry key display path
              registry_file
            ≡ ok before)
          × Registers key r before.worktrees after.worktrees
    unfolding register_worktree
    register_worktree-Registers r after h =
        elim (Result-cases
          (validate display r >> load_locked key display path lock registry_file save)) [
            | inr (e, f) ↦
                let step : register_worktree key display path lock registry_file save r
                    ≡ (err e, none) =
                  rw (f, register_worktree) refl in
                absurd cc
            | inl (before, f) ↦
                let step : register_worktree key display path lock registry_file save r
                    ≡ register_loaded key display path lock registry_file save
                        (upsert_worktree key r before) =
                  rw (f, register_worktree) refl in
                let (_, _, locked) = bind-eq-ok (validate display r) _ f in
                let loaded = locked_lem lock before locked in
                let upserted = upsert_worktree key r before in
                let (changed, same) =
                  register_loaded_saves upserted.0 after upserted.1
                    (sym (ap (λ q. q.1) step) ∙ h) in
                (
                  before,
                  loaded,
                  elim (upsert_worktree-Registers r before upserted.0 upserted.1
                      (load_worktree_registry-AreDistinct key display path registry_file before
                        loaded)
                      refl) [
                        | inl e ↦ absurd (changed e)
                        | inr g ↦ subst (λ a. Registers key r before.worktrees a.worktrees) same g
                      ],
                )
          ]
