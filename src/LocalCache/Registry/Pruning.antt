-- ===== src/LocalCache/Registry/Pruning.antt =====
-- That the worktrees in a registry that src/local_cache/registry.rs accepts have different roots.
use lfs_cloud.Prelude.{
  ◌≡◌, subst, ◌∙◌, false, not, [], ◌∷◌, List, in_range, any, ok, guard, guard-eq-ok, bind-eq-ok,
  ok-injective, All, arith,
}
use lfs_cloud.Prelude.Text.{Text}
use lfs_cloud.Prelude.Paths.{PathBuf, path_eq, path_eq_sym}
use lfs_cloud.LocalCache.{unsupported_worktree_registry_version}
use lfs_cloud.LocalCache.Registry.{
  LocalCacheWorktreeRegistration, LocalCacheWorktreeRegistry, RegistryFile, absent, unopened,
  undecoded, decoded, worktree_registry_version, validate, same_root, validate_worktrees,
  validate_for_path, load_worktree_registry,
}

module _ (key : PathBuf → PathBuf) where
  abbrev pub DifferFrom :
      LocalCacheWorktreeRegistration → List LocalCacheWorktreeRegistration → Type 0
  DifferFrom r rs = All (λ s. same_root key (key s.worktree_root) r ≡ false) rs

  -- No two worktrees have the same root.
  abbrev pub AreDistinct : List LocalCacheWorktreeRegistration → Type 0
  AreDistinct [] = Unit
  AreDistinct (r ∷ rs) = DifferFrom r rs × AreDistinct rs

  module _ (display : PathBuf → Text) where
    abbrev AreNew : List PathBuf → List LocalCacheWorktreeRegistration → Type 0
    AreNew roots rs = All (λ s. any (path_eq (key s.worktree_root)) roots ≡ false) rs

    differ :
        (r : LocalCacheWorktreeRegistration) (roots : List PathBuf)
        (rs : List LocalCacheWorktreeRegistration)
        → AreNew (key r.worktree_root ∷ roots) rs
        → DifferFrom r rs × AreNew roots rs
    differ r roots [] new = (tt, tt)
    differ r roots (s ∷ rs) (n, new) =
        let (d, later) = differ r roots rs new in
        (
          (path_eq_sym (key r.worktree_root) (key s.worktree_root) ∙ ground (arith, n), d),
          (ground (arith, n), later),
        )

    validate_worktrees-AreDistinct :
        (roots : List PathBuf) (rs : List LocalCacheWorktreeRegistration) {u : Unit {0}}
        → validate_worktrees key display roots rs ≡ ok u
        → AreNew roots rs × AreDistinct rs
    unfolding validate_worktrees
    validate_worktrees-AreDistinct roots [] h = (tt, tt)
    validate_worktrees-AreDistinct roots (r ∷ rs) h =
        let (_, _, h1) = bind-eq-ok (validate display r) _ h in
        let (_, new, h2) =
          bind-eq-ok (guard (not (any (path_eq (key r.worktree_root)) roots)) _) _ h1 in
        let (later, distinct) =
          validate_worktrees-AreDistinct (key r.worktree_root ∷ roots) rs h2 in
        let (d, old) = differ r roots rs later in
        ((ground (arith, guard-eq-ok _ _ new), old), (d, distinct))

    pub load_worktree_registry-AreDistinct :
        (path : PathBuf) (registry_file : RegistryFile) (registry : LocalCacheWorktreeRegistry)
        → load_worktree_registry key display path registry_file ≡ ok registry
        → AreDistinct registry.worktrees
    unfolding load_worktree_registry validate_for_path
    load_worktree_registry-AreDistinct path absent registry h =
        subst (λ r. AreDistinct r.worktrees) (ok-injective h) tt
    load_worktree_registry-AreDistinct path (unopened source) registry h = absurd cc
    load_worktree_registry-AreDistinct path (undecoded source) registry h = absurd cc
    load_worktree_registry-AreDistinct path (decoded found) registry h =
        let (_, valid, same) = bind-eq-ok (validate_for_path key display path found) _ h in
        let (_, _, rest) =
          bind-eq-ok
            (guard (in_range 1 worktree_registry_version found.version)
              (unsupported_worktree_registry_version path found.version worktree_registry_version))
            (λ _. validate_worktrees key display [] found.worktrees) valid in
        subst (λ r. AreDistinct r.worktrees) (ok-injective same)
          (validate_worktrees-AreDistinct [] found.worktrees rest).1
