-- ===== src/LocalCache/Registry/Replaced.antt =====
-- What it is for a worktree to be put in the place of another in the list of src/local_cache/registry.rs.
use lfs_cloud.Prelude.{
  some-injective, ◌≡◌, refl, sym, ap, subst, ◌∙◌, ◌⊎◌, inl, inr, Bool, true, false, none, some, [],
  ◌∷◌, ◌++◌, List, Option-cases, Bool-cases, All-Mem, Mem-All,
}
use mathlib.Core.List.{Memᴰ}
use lfs_cloud.Prelude.Paths.{PathBuf, path_eq, path_eq_sym, path_eq_refl, path_eq-≡}
use lfs_cloud.Prelude.Sorting.{
  sort_by, insert_sorted, insert_sorted-All, sort_by-All, sort_by-Mem, sort_by_keeps,
}
use lfs_cloud.LocalCache.Registry.{
  LocalCacheWorktreeRegistration, same_root, sort_worktrees, replace_worktree,
}
use lfs_cloud.LocalCache.Registry.Pruning.{DifferFrom, AreDistinct}

module _ (key : PathBuf → PathBuf) where
  abbrev Differ : LocalCacheWorktreeRegistration → LocalCacheWorktreeRegistration → Type 0
  Differ r s = same_root key (key s.worktree_root) r ≡ false

  Differ-sym : (r s : LocalCacheWorktreeRegistration) → Differ r s → Differ s r
  Differ-sym r s d = path_eq_sym (key s.worktree_root) (key r.worktree_root) ∙ d

  insert_sorted-AreDistinct :
      (less : LocalCacheWorktreeRegistration → LocalCacheWorktreeRegistration → Bool)
      (r : LocalCacheWorktreeRegistration) (rs : List LocalCacheWorktreeRegistration)
      → DifferFrom key r rs
      → AreDistinct key rs
      → AreDistinct key (insert_sorted less r rs)
  unfolding insert_sorted
  insert_sorted-AreDistinct less r [] d ds = (tt, tt)
  insert_sorted-AreDistinct less r (s ∷ rs) (d, differ) (e, ds) = elim (Bool-cases (less s r)) [
    | inr f ↦ rw f ((d, differ), (e, ds))
    | inl f ↦ rw f (
      insert_sorted-All (Differ s) less r rs (Differ-sym r s d) e,
      insert_sorted-AreDistinct less r rs differ ds,
    )
  ]

  sort_by-AreDistinct :
      (less : LocalCacheWorktreeRegistration → LocalCacheWorktreeRegistration → Bool)
      (rs : List LocalCacheWorktreeRegistration)
      → AreDistinct key rs
      → AreDistinct key (sort_by less rs)
  unfolding sort_by
  sort_by-AreDistinct less [] ds = tt
  sort_by-AreDistinct less (r ∷ rs) (d, ds) =
      insert_sorted-AreDistinct less r (sort_by less rs) (sort_by-All (Differ r) less rs d)
        (sort_by-AreDistinct less rs ds)

  -- From one list of worktrees to another, in which `r` stands for whatever had its root, and nothing
  -- else has changed.
  pub record Registers (r : LocalCacheWorktreeRegistration)
      (before after : List LocalCacheWorktreeRegistration) : Type 0 where
    pub distinct : AreDistinct key after
    pub registered : Memᴰ r after
    pub known :
        (s : LocalCacheWorktreeRegistration) → Memᴰ s after → (s ≡ r) ⊎ (Memᴰ s before × Differ r s)
    pub kept : (s : LocalCacheWorktreeRegistration) → Memᴰ s before → Differ r s → Memᴰ s after

  pub sort_worktrees-Registers :
      (r : LocalCacheWorktreeRegistration) (before after : List LocalCacheWorktreeRegistration)
      → Registers r before after
      → Registers r before (sort_worktrees key after)
  sort_worktrees-Registers r before after g = record {
    distinct = sort_by-AreDistinct _ after g.distinct;
    registered = sort_by_keeps _ r after g.registered;
    known = λ s m. g.known s (sort_by-Mem _ s after m);
    kept = λ s m d. sort_by_keeps _ s after (g.kept s m d);
  }

  -- One more worktree in front, if its root is another.
  Registers-∷ :
      (r s : LocalCacheWorktreeRegistration) (before after : List LocalCacheWorktreeRegistration)
      → Differ r s
      → DifferFrom key s before
      → Registers r before after
      → Registers r (s ∷ before) (s ∷ after)
  Registers-∷ r s before after d differ g = record {
    distinct = (
      Mem-All (Differ s) after (λ t m. elim (g.known t m) [
        | inl e ↦ subst (Differ s) (sym e) (Differ-sym r s d)
        | inr (k, _) ↦ All-Mem (Differ s) before differ k
      ]),
      g.distinct,
    );
    registered = Memᴰ.tail g.registered;
    known = λ t m. elim m [
      | Memᴰ.head same ↦ inr (Memᴰ.head same, subst (Differ r) (sym same) d)
      | Memᴰ.tail n ↦ elim (g.known t n) [ inl e ↦ inl e | inr (k, e) ↦ inr (Memᴰ.tail k, e) ]
    ];
    kept = λ t m e. elim m [
      | Memᴰ.head same ↦ Memᴰ.head same
      | Memᴰ.tail n ↦ Memᴰ.tail (g.kept t n e)
    ];
  }

  -- In place of a worktree with the same root.
  Registers-same :
      (r s : LocalCacheWorktreeRegistration) (rs : List LocalCacheWorktreeRegistration)
      → key s.worktree_root ≡ key r.worktree_root
      → AreDistinct key (s ∷ rs)
      → Registers r (s ∷ rs) (r ∷ rs)
  Registers-same r s rs e (d, ds) =
      let differ : DifferFrom key r rs = Mem-All (Differ r) rs (λ t m.
        subst (λ k. path_eq k (key t.worktree_root) ≡ false) e (All-Mem (Differ s) rs d m)) in
      record {
        distinct = (differ, ds);
        registered = Memᴰ.head refl;
        known = λ t m. elim m [
          | Memᴰ.head same ↦ inl same
          | Memᴰ.tail n ↦ inr (Memᴰ.tail n, All-Mem (Differ r) rs differ n)
        ];
        kept = λ t m f. elim m [
          | Memᴰ.tail n ↦ Memᴰ.tail n
          | Memᴰ.head same ↦
              let self : path_eq (key r.worktree_root) (key t.worktree_root) ≡ true =
                rw (same, e) (path_eq_refl (key r.worktree_root)) in
              absurd cc
        ];
      }

  found_first :
      (r s : LocalCacheWorktreeRegistration) (rs : List LocalCacheWorktreeRegistration)
      → same_root key (key r.worktree_root) s ≡ true
      → replace_worktree key r (s ∷ rs) ≡ some (s, r ∷ rs)
  unfolding replace_worktree
  found_first r s rs f = elim (Option-cases (replace_worktree key r rs)) [
    | inl e ↦ rw (e, f, replace_worktree) refl
    | inr (_, e) ↦ rw (e, f, replace_worktree) refl
  ]

  pub replace_worktree-Registers :
      (r found : LocalCacheWorktreeRegistration)
      (before after : List LocalCacheWorktreeRegistration)
      → AreDistinct key before
      → replace_worktree key r before ≡ some (found, after)
      → Registers r before after
  unfolding replace_worktree
  replace_worktree-Registers r found [] after ds h = absurd cc
  replace_worktree-Registers r found (s ∷ rs) after (d, ds) h =
      elim (Bool-cases (same_root key (key r.worktree_root) s)) [
        | inl f ↦
            let first : replace_worktree key r (s ∷ rs) ≡ some (s, r ∷ rs) = found_first r s rs f in
            subst (Registers r (s ∷ rs)) (ap (λ q. q.1) (some-injective (sym first ∙ h))) (
              Registers-same r s rs (path_eq-≡ (key s.worktree_root) (key r.worktree_root) f)
                (d, ds))
        | inr f ↦ elim (Option-cases (replace_worktree key r rs)) [
          | inl e ↦
              let step : replace_worktree key r (s ∷ rs) ≡ none =
                rw (e, f, replace_worktree) refl in
              absurd cc
          | inr ((t, rest), e) ↦
              let step : replace_worktree key r (s ∷ rs) ≡ some (t, s ∷ rest) =
                rw (e, f, replace_worktree) refl in
              subst (Registers r (s ∷ rs)) (ap (λ q. q.1) (some-injective (sym step ∙ h))) (
                Registers-∷ r s rs rest (Differ-sym s r f) d
                  (replace_worktree-Registers r t rs rest ds e))
        ]
      ]

  pub append-Registers :
      (r : LocalCacheWorktreeRegistration) (before : List LocalCacheWorktreeRegistration)
      → AreDistinct key before
      → replace_worktree key r before ≡ none
      → Registers r before (before ++ r ∷ [])
  unfolding replace_worktree
  append-Registers r [] ds h = record {
    distinct = (tt, tt);
    registered = Memᴰ.head refl;
    known = λ t m. elim m [ Memᴰ.head same ↦ inl same | Memᴰ.tail n ↦ elim n [ ] ];
    kept = λ t m f. elim m [ ];
  }
  append-Registers r (s ∷ rs) (d, ds) h =
      elim (Bool-cases (same_root key (key r.worktree_root) s)) [
        | inl f ↦ let first = found_first r s rs f in absurd cc
        | inr f ↦ elim (Option-cases (replace_worktree key r rs)) [
          | inl e ↦
              Registers-∷ r s rs (rs ++ r ∷ []) (Differ-sym s r f) d (append-Registers r rs ds e)
          | inr ((t, rest), e) ↦
              let step : replace_worktree key r (s ∷ rs) ≡ some (t, s ∷ rest) =
                rw (e, f, replace_worktree) refl in
              absurd cc
        ]
      ]
