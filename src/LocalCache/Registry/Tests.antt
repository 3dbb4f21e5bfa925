-- ===== src/LocalCache/Registry/Tests.antt =====
-- A registration at work, and the theorem on registrations at a concrete registry.
use lfs_cloud.Prelude.{◌≡◌, refl, ap, none, some, [], ◌∷◌, ◌++◌, List, ok}
use lfs_cloud.Prelude.Text.{Text, codes, text_eq, text_ltb, trim, trim_start, is_whitespace}
use lfs_cloud.Prelude.Paths.{PathBuf, root_dir, normal, path_eq, path_ltb}
use lfs_cloud.Prelude.Sorting.{insert_sorted, sort_by}
use lfs_cloud.LocalCache.Registry.{
  LocalCacheWorktreeRegistration, LocalCacheWorktreeRegistry, decoded, updated, validate,
  validate_worktrees, validate_for_path, load_worktree_registry, replace_worktree, upsert_worktree,
  register_worktree,
}
use lfs_cloud.LocalCache.Registry.Replaced.{Registers}
use lfs_cloud.LocalCache.Registry.Registered.{register_worktree-Registers}

abbrev at : Text → PathBuf
at name = root_dir ∷ normal name ∷ []

abbrev registration : Text → Text → LocalCacheWorktreeRegistration
registration id name = record {
  repository_id = id;
  worktree_root = at name;
  git_dir = at (name ++ codes ".git");
}

abbrev registry_of : List LocalCacheWorktreeRegistration → LocalCacheWorktreeRegistry
registry_of worktrees = record { version = 2; worktrees = worktrees }

abbrev key : PathBuf → PathBuf
key path = path

abbrev display : PathBuf → Text
display path = codes "a path"

-- The worktree at `w` gets another repository, and the list is sorted.
abbrev saved_registry : LocalCacheWorktreeRegistry
saved_registry =
    registry_of (registration (codes "a") (codes "v") ∷ registration (codes "c") (codes "w") ∷ [])

abbrev loaded_registry : LocalCacheWorktreeRegistry
loaded_registry =
    registry_of (registration (codes "b") (codes "w") ∷ registration (codes "a") (codes "v") ∷ [])

registered :
    register_worktree key display
      (at (codes "r"))
      none
      (decoded loaded_registry)
      (λ _. none)
      (registration (codes "c") (codes "w"))
    ≡ (ok updated, some saved_registry)
unfolding text_eq text_ltb trim trim_start is_whitespace path_eq path_ltb insert_sorted sort_by
    validate validate_worktrees validate_for_path load_worktree_registry replace_worktree
    upsert_worktree register_worktree
registered = refl

register_worktree-Registers_example :
    (before : LocalCacheWorktreeRegistry) × (load_worktree_registry key display
        (at (codes "r"))
        (decoded loaded_registry)
      ≡ ok before)
    × Registers key (registration (codes "c") (codes "w")) before.worktrees saved_registry.worktrees
register_worktree-Registers_example =
    register_worktree-Registers key display (at (codes "r")) none (decoded loaded_registry)
      (λ _. none) (registration (codes "c") (codes "w")) saved_registry (ap (λ q. q.1) registered)
