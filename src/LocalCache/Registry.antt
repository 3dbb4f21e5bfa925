-- ===== src/LocalCache/Registry.antt =====
-- src/local_cache/registry.rs: which worktrees use the cache. The key of a path, which is its canonical
-- form where it has one, is the argument `key`, and the texts of paths in messages are `display`.
pub mod Pruning
pub mod Replaced
pub mod Registered
mod Tests
use lfs_cloud.Prelude.{
  ℕ, Bool, true, false, not, ◌&&◌, Option, none, some, [], ◌∷◌, ◌++◌, List, if◌then◌else◌, any,
  is_empty, in_range, Result, ok, err, ◌>>=◌, ◌>>◌, guard,
}
use lfs_cloud.Prelude.Text.{Text, codes, text_eq, trim}
use lfs_cloud.Prelude.Paths.{PathBuf, is_absolute, path_eq, path_ltb}
use lfs_cloud.Prelude.Sorting.{sort_by}
use lfs_cloud.LocalCache.{
  LocalCacheError, io, invalid_worktree_registration, worktree_registry_json,
  unsupported_worktree_registry_version,
}

pub record LocalCacheWorktreeRegistration : Type 0 where
  pub repository_id : Text
  pub worktree_root : PathBuf
  pub git_dir : PathBuf

pub record LocalCacheWorktreeRegistry : Type 0 where
  pub version : ℕ
  pub worktrees : List LocalCacheWorktreeRegistration

abbrev pub worktree_registry_version : ℕ
worktree_registry_version = 2

abbrev pub new_registry : LocalCacheWorktreeRegistry
new_registry = record { version = worktree_registry_version; worktrees = [] }

abbrev pub registration_eq : LocalCacheWorktreeRegistration → LocalCacheWorktreeRegistration → Bool
registration_eq r s =
    text_eq r.repository_id s.repository_id
    && (path_eq r.worktree_root s.worktree_root && path_eq r.git_dir s.git_dir)

pub data Status : Type 0 where
  added updated unchanged : Status

-- What opening and decoding the registry file gives.
pub data RegistryFile : Type 0 where
  absent : RegistryFile
  unopened undecoded : Text → RegistryFile
  decoded : LocalCacheWorktreeRegistry → RegistryFile

-- What is done, and the registry that is saved, if one is.
abbrev pub Saved : Type 0 → Type 0
Saved A = Result LocalCacheError A × Option LocalCacheWorktreeRegistry

module _ {A : Type 0} where
  abbrev pub saved_or : Option LocalCacheError → A → LocalCacheWorktreeRegistry → Saved A
  saved_or none a registry = (ok a, some registry)
  saved_or (some e) a registry = (err e, none)

module _ (display : PathBuf → Text) where
  abbrev pub validate_absolute_path : Text → PathBuf → Result LocalCacheError (Unit {0})
  validate_absolute_path field path =
      guard (is_absolute path)
        (invalid_worktree_registration field (codes "path must be absolute: " ++ display path))

  -- LocalCacheWorktreeRegistration::validate
  unfoldable pub validate : LocalCacheWorktreeRegistration → Result LocalCacheError (Unit {0})
  validate r =
      let id = trim r.repository_id in
      guard (not (is_empty id))
        (invalid_worktree_registration (codes "repository_id") (codes "must not be blank"))
      >> (guard (text_eq id r.repository_id)
            (invalid_worktree_registration (codes "repository_id") (codes "must not be padded"))
          >> (validate_absolute_path (codes "worktree_root") r.worktree_root
              >> validate_absolute_path (codes "git_dir") r.git_dir))

module _ (key : PathBuf → PathBuf) where
  abbrev pub same_root : PathBuf → LocalCacheWorktreeRegistration → Bool
  same_root root r = path_eq (key r.worktree_root) root

  abbrev sort_worktrees : List LocalCacheWorktreeRegistration → List LocalCacheWorktreeRegistration
  sort_worktrees = sort_by (λ r s. path_ltb (key r.worktree_root) (key s.worktree_root))

  -- The first registration at the same root, and the list with the new one in its place.
  unfoldable pub replace_worktree :
      LocalCacheWorktreeRegistration
      → List LocalCacheWorktreeRegistration
      → Option (LocalCacheWorktreeRegistration × List LocalCacheWorktreeRegistration)
  replace_worktree r [] = none
  replace_worktree r (s ∷ rs) = elim (replace_worktree r rs) [
    | none ↦ if same_root (key r.worktree_root) s then some (s, r ∷ rs) else none
    | some (found, rest) ↦
        if same_root (key r.worktree_root) s then some (s, r ∷ rs) else some (found, s ∷ rest)
  ]

  unfoldable pub upsert_worktree :
      LocalCacheWorktreeRegistration
      → LocalCacheWorktreeRegistry
      → LocalCacheWorktreeRegistry × Status
  upsert_worktree r registry = elim (replace_worktree r registry.worktrees) [
    | none ↦ (record registry { worktrees = sort_worktrees (registry.worktrees ++ r ∷ []) }, added)
    | some (existing, worktrees) ↦
        if registration_eq existing r
        then (registry, unchanged)
        else (record registry { worktrees = sort_worktrees worktrees }, updated)
  ]

  -- Without the first registration at a root, whose key is given.
  unfoldable pub remove_root :
      PathBuf → List LocalCacheWorktreeRegistration → List LocalCacheWorktreeRegistration
  remove_root root [] = []
  remove_root root (r ∷ rs) =
      let rest = remove_root root rs in if same_root root r then rs else r ∷ rest

  -- That registration.
  unfoldable pub find_root :
      PathBuf → List LocalCacheWorktreeRegistration → Option LocalCacheWorktreeRegistration
  find_root root [] = none
  find_root root (r ∷ rs) =
      let rest = find_root root rs in if same_root root r then some r else rest

  -- LocalCacheWorktreeRegistry::remove, of which `garbage_collect` drops the answer
  abbrev pub remove_worktree : PathBuf → LocalCacheWorktreeRegistry → LocalCacheWorktreeRegistry
  remove_worktree root registry = record registry {
    worktrees = remove_root (key root) registry.worktrees;
  }

  module _ (display : PathBuf → Text) where
    -- The loop of `validate_for_path`, with the keys so far.
    unfoldable pub validate_worktrees :
        List PathBuf → List LocalCacheWorktreeRegistration → Result LocalCacheError (Unit {0})
    validate_worktrees roots [] = ok tt
    validate_worktrees roots (r ∷ rs) =
        validate display r
        >> (guard (not (any (path_eq (key r.worktree_root)) roots)) (
              invalid_worktree_registration (codes "worktree_root")
                (codes "duplicate worktree root in registry: " ++ display r.worktree_root))
            >> validate_worktrees (key r.worktree_root ∷ roots) rs)

    unfoldable pub validate_for_path :
        PathBuf → LocalCacheWorktreeRegistry → Result LocalCacheError (Unit {0})
    validate_for_path path registry =
        guard (in_range 1 worktree_registry_version registry.version)
          (unsupported_worktree_registry_version path registry.version worktree_registry_version)
        >> validate_worktrees [] registry.worktrees

    -- LocalCacheLayout::load_worktree_registry
    unfoldable pub load_worktree_registry :
        PathBuf → RegistryFile → Result LocalCacheError LocalCacheWorktreeRegistry
    load_worktree_registry path absent = ok new_registry
    load_worktree_registry path (unopened source) =
        err (io (codes "failed to open local cache worktree registry") path source)
    load_worktree_registry path (undecoded source) = err (
        worktree_registry_json (codes "failed to decode local cache worktree registry") path source)
    load_worktree_registry path (decoded registry) =
        validate_for_path path registry
        >> ok (record registry { version = worktree_registry_version })

    module _ (path : PathBuf) (lock : Option LocalCacheError) (registry_file : RegistryFile)
        (save : LocalCacheWorktreeRegistry → Option LocalCacheError) where
      abbrev pub load_locked : Result LocalCacheError LocalCacheWorktreeRegistry
      load_locked = elim lock [ some e ↦ err e | none ↦ load_worktree_registry path registry_file ]

      abbrev pub register_loaded : LocalCacheWorktreeRegistry × Status → Saved Status
      register_loaded (registry, unchanged) = (ok unchanged, none)
      register_loaded (registry, added) = saved_or (save registry) added registry
      register_loaded (registry, updated) = saved_or (save registry) updated registry

      -- LocalCacheLayout::register_worktree
      unfoldable pub register_worktree : LocalCacheWorktreeRegistration → Saved Status
      register_worktree r = elim (validate display r >> load_locked) [
        | err e ↦ (err e, none)
        | ok registry ↦ register_loaded (upsert_worktree r registry)
      ]

      abbrev pub remove_loaded :
          PathBuf
          → LocalCacheWorktreeRegistry
          → Option LocalCacheWorktreeRegistration
          → Saved (Option LocalCacheWorktreeRegistration)
      remove_loaded root registry none = (ok none, none)
      remove_loaded root registry (some r) =
          let rest = remove_worktree root registry in saved_or (save rest) (some r) rest

      -- LocalCacheLayout::remove_worktree_registration
      unfoldable pub remove_worktree_registration :
          PathBuf → Saved (Option LocalCacheWorktreeRegistration)
      remove_worktree_registration root =
          elim (validate_absolute_path display (codes "worktree_root") root >> load_locked) [
            | err e ↦ (err e, none)
            | ok registry ↦ remove_loaded root registry (find_root (key root) registry.worktrees)
          ]
