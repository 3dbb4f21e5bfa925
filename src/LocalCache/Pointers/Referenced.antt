-- ===== src/LocalCache/Pointers/Referenced.antt =====
-- That src/local_cache/garbage_collection.rs finds every object that a worktree refers to.
use lfs_cloud.Prelude.{
  ℕ, zero, suc, ◌<◌, ◌≡◌, refl, sym, ap, subst, ◌∙◌, inl, inr, Bool, true, false, some, [], ◌∷◌,
  List, leb, take, length, if◌then◌else◌, ok, err, bind-eq-ok, ok-injective, Result-cases,
  Option-cases, Bool-cases, arith,
}
use mathlib.Core.List.{Memᴰ}
use lfs_cloud.Prelude.Text.{Text, codes, text_eq_refl}
use lfs_cloud.Prelude.Utf8.{from_utf8}
use lfs_cloud.Prelude.Paths.{PathBuf, join}
use lfs_cloud.Lfs.Oid.{LfsOid}
use lfs_cloud.Lfs.Pointer.{LfsPointer, lfs_pointer_size_cutoff, parse, is_empty_pointer}
use lfs_cloud.LocalCache.{io}
use lfs_cloud.LocalCache.Registry.{LocalCacheWorktreeRegistration}
use lfs_cloud.LocalCache.Disk.{
  file, nothing, failed, found, OpenFile, Opened, gone, refused, opened, Disk,
}
use lfs_cloud.LocalCache.Pointers.{
  is_file, is_other_than_file, is_referenced, BoundedPointerBytes, contents_of, not_regular_file,
  over_cutoff, read_bounded_pointer_bytes, insert_pointer, Collected, collect_bytes, candidate,
  collect_opened, collect_pointer_oid_from_file, References, push_skipped, collect_paths,
  tracked_lfs_paths, collect_tracked_lfs_pointer_oids, collect_worktrees, referenced_worktree_oids,
}
use lfs_cloud.Server.Staging.Body.{Bytes}

-- At a path there is a pointer file, smaller than the cutoff, of a non-empty object.
pub record HoldsPointer (disk : Disk) (path : PathBuf) (oid : LfsOid) : Type 0 where
  pub open_file : OpenFile
  pub contents : Bytes
  pub text : Text
  pub pointer : LfsPointer
  pub is_a_file : disk.symlink_metadata path ≡ found file
  pub opens : disk.openat path ≡ opened open_file
  pub has_metadata : open_file.metadata ≡ ok (file, length contents)
  pub reads : open_file.contents ≡ ok contents
  pub small : length contents < lfs_pointer_size_cutoff
  pub decodes : from_utf8 contents ≡ some text
  pub parses : parse text ≡ ok pointer
  pub not_empty : is_empty_pointer pointer ≡ false
  pub of_oid : pointer.object.oid ≡ oid

abbrev Grows : List LfsOid → List LfsOid → Type 0
Grows before after = (o : LfsOid) → is_referenced o before ≡ true → is_referenced o after ≡ true

insert_pointer-Grows :
    (contents : Bytes) (referenced : List LfsOid)
    → Grows referenced (insert_pointer contents referenced)
unfolding insert_pointer
insert_pointer-Grows contents referenced o h = elim (Option-cases (from_utf8 contents)) [
  | inl e ↦ rw (e, insert_pointer) h
  | inr (text, e) ↦ elim (Result-cases (parse text)) [
    | inr (_, f) ↦ rw (e, f, insert_pointer) h
    | inl (pointer, f) ↦ elim (Bool-cases (is_empty_pointer pointer)) [
      | inl g ↦ rw (e, f, g, insert_pointer) h
      | inr g ↦ rw (e, f, g, insert_pointer) (ground (arith, h))
    ]
  ]
]

collect_bytes-Grows :
    (referenced : List LfsOid) (b : BoundedPointerBytes)
    → Grows referenced (collect_bytes referenced b).1
collect_bytes-Grows referenced (contents_of contents) = insert_pointer-Grows contents referenced
collect_bytes-Grows referenced not_regular_file = λ o h. h
collect_bytes-Grows referenced (over_cutoff n) = λ o h. h

abbrev CollectedGrows : List LfsOid → Collected → Type 0
CollectedGrows referenced (err e) = Unit
CollectedGrows referenced (ok (skipped, after)) = Grows referenced after

collect_opened-CollectedGrows :
    (path : PathBuf) (referenced : List LfsOid) (o : Opened)
    → CollectedGrows referenced (collect_opened path referenced o)
collect_opened-CollectedGrows path referenced gone = λ o h. h
collect_opened-CollectedGrows path referenced (refused source later) =
    elim (Bool-cases (is_other_than_file later)) [ inl e ↦ rw e (λ o h. h) | inr e ↦ rw e tt ]
collect_opened-CollectedGrows path referenced (opened f) =
    elim (Result-cases (
      read_bounded_pointer_bytes f path (candidate (codes "inspect")) (candidate (codes "read")))) [
        | inl (b, e) ↦ rw e (collect_bytes-Grows referenced b)
        | inr (_, e) ↦ rw e tt
      ]

insert_pointer-contains :
    (contents : Bytes) (referenced : List LfsOid) (text : Text) (pointer : LfsPointer)
    → from_utf8 contents ≡ some text
    → parse text ≡ ok pointer
    → is_empty_pointer pointer ≡ false
    → is_referenced pointer.object.oid (insert_pointer contents referenced) ≡ true
unfolding insert_pointer
insert_pointer-contains contents referenced text pointer d p n =
    rw (d, p, n, insert_pointer, text_eq_refl pointer.object.oid.hex) refl

take_all {ℓ} : {A : Type ℓ} (n : ℕ) (xs : List A) → length xs < n → take n xs ≡ xs
unfolding take
take_all zero xs h = absurd (omega (arith, h))
take_all (suc n) [] h = refl
take_all (suc n) (x ∷ xs) h = ap (λ ys. x ∷ ys) (take_all n xs (omega (arith, h)))

is_small :
    (contents : Bytes)
    → length contents < lfs_pointer_size_cutoff
    → leb lfs_pointer_size_cutoff (length contents) ≡ false
is_small contents h = ground (arith, h)

module _ (disk : Disk) where
  collect_pointer_oid_from_file-CollectedGrows :
      (path : PathBuf) (referenced : List LfsOid)
      → CollectedGrows referenced (collect_pointer_oid_from_file disk path referenced)
  unfolding collect_pointer_oid_from_file
  collect_pointer_oid_from_file-CollectedGrows path referenced =
      elim (disk.symlink_metadata path)
        as (λ f. CollectedGrows referenced (elim f [
          | found kind ↦
              if is_file kind
              then collect_opened path referenced (disk.openat path)
              else ok (true, referenced)
          | nothing ↦ ok (false, referenced)
          | failed source ↦ err (io (candidate (codes "inspect")) path source)
        ])) [
          | nothing ↦ λ o h. h
          | failed source ↦ tt
          | found kind ↦ elim (Bool-cases (is_file kind)) [
            | inl e ↦ rw e (collect_opened-CollectedGrows path referenced (disk.openat path))
            | inr e ↦ rw e (λ o h. h)
          ]
        ]

  collect_pointer_oid_from_file-HoldsPointer :
      (path : PathBuf) (oid : LfsOid) (referenced : List LfsOid)
      → HoldsPointer disk path oid
      → (after : List LfsOid) × (collect_pointer_oid_from_file disk path referenced
          ≡ ok (false, after))
        × (is_referenced oid after ≡ true)
  unfolding collect_pointer_oid_from_file read_bounded_pointer_bytes
  collect_pointer_oid_from_file-HoldsPointer path oid referenced h = (
    insert_pointer h.contents referenced,
    rw
        (
          h.is_a_file, h.opens, h.has_metadata, collect_pointer_oid_from_file,
          read_bounded_pointer_bytes,
        )
        (rw
          (
            h.reads,
            take_all lfs_pointer_size_cutoff h.contents h.small,
            is_small h.contents h.small,
          )
          refl),
    rw (← h.of_oid) (
        insert_pointer-contains h.contents referenced h.text h.pointer h.decodes h.parses
          h.not_empty),
  )

  -- A path that is collected loses no reference.
  collect_pointer_oid_from_file-Grows :
      (path : PathBuf) (before after : List LfsOid) (skipped : Bool)
      → collect_pointer_oid_from_file disk path before ≡ ok (skipped, after)
      → Grows before after
  collect_pointer_oid_from_file-Grows path before after skipped e =
      subst (CollectedGrows before) e (collect_pointer_oid_from_file-CollectedGrows path before)

  push_skipped-first :
      (path : PathBuf) (skipped : List PathBuf) (c : Bool × List LfsOid)
      → (push_skipped path skipped c).0 ≡ c.1
  push_skipped-first path skipped (true, after) = refl
  push_skipped-first path skipped (false, after) = refl

  collect_paths-Grows :
      (root : PathBuf) (paths : List PathBuf) (before after : References)
      → collect_paths disk root paths before ≡ ok after
      → Grows before.0 after.0
  unfolding collect_paths
  collect_paths-Grows root [] before after e o h = rw (← ok-injective e) h
  collect_paths-Grows root (path ∷ paths) (before, skipped) after e o h =
      let (c, f, g) = bind-eq-ok (collect_pointer_oid_from_file disk (join root path) before) _ e in
      collect_paths-Grows root paths (push_skipped (join root path) skipped c) after g o (
        rw (push_skipped-first (join root path) skipped c)
          (collect_pointer_oid_from_file-Grows (join root path) before c.1 c.0 f o h))

  collected_contains :
      (path : PathBuf) (oid : LfsOid) (before : List LfsOid) (c : Bool × List LfsOid)
      → HoldsPointer disk path oid
      → collect_pointer_oid_from_file disk path before ≡ ok c
      → is_referenced oid c.1 ≡ true
  collected_contains path oid before c holds f =
      let (after, at, contained) =
        collect_pointer_oid_from_file-HoldsPointer path oid before holds in
      rw (ok-injective (sym f ∙ at)) contained

  collect_paths-contains :
      (root path : PathBuf) (oid : LfsOid) (paths : List PathBuf) (before after : References)
      → Memᴰ path paths
      → HoldsPointer disk (join root path) oid
      → collect_paths disk root paths before ≡ ok after
      → is_referenced oid after.0 ≡ true
  unfolding collect_paths
  collect_paths-contains root path oid [] before after m holds e = elim m [ ]
  collect_paths-contains root path oid (p ∷ paths) (before, skipped) after m holds e =
      let (c, f, g) = bind-eq-ok (collect_pointer_oid_from_file disk (join root p) before) _ e in
      elim m [
        | Memᴰ.tail n ↦ collect_paths-contains root path oid paths _ after n holds g
        | Memᴰ.head same ↦
            collect_paths-Grows root paths (push_skipped (join root p) skipped c) after g oid (
              rw (push_skipped-first (join root p) skipped c) (
                collected_contains (join root p) oid before c
                  (subst (λ q. HoldsPointer disk (join root q) oid) same holds) f))
      ]

  -- Such a file is among the paths that git tracks as Git LFS files in a worktree.
  pub record RefersTo (r : LocalCacheWorktreeRegistration) (oid : LfsOid) : Type 0 where
    pub paths : List PathBuf
    pub path : PathBuf
    pub tracks : tracked_lfs_paths disk r ≡ ok paths
    pub among : Memᴰ path paths
    pub holds : HoldsPointer disk (join r.worktree_root path) oid

  collect_worktrees-Grows :
      (rs : List LocalCacheWorktreeRegistration) (before after : References)
      → collect_worktrees disk rs before ≡ ok after
      → Grows before.0 after.0
  unfolding collect_worktrees collect_tracked_lfs_pointer_oids
  collect_worktrees-Grows [] before after e o h = rw (← ok-injective e) h
  collect_worktrees-Grows (r ∷ rs) before after e o h =
      let (next, f, g) = bind-eq-ok (collect_tracked_lfs_pointer_oids disk r before) _ e in
      let (paths, _, collected) = bind-eq-ok (tracked_lfs_paths disk r) _ f in
      collect_worktrees-Grows rs next after g o
        (collect_paths-Grows r.worktree_root paths before next collected o h)

  collect_worktrees-contains :
      (r : LocalCacheWorktreeRegistration) (oid : LfsOid) (rs : List LocalCacheWorktreeRegistration)
      (before after : References)
      → Memᴰ r rs
      → RefersTo r oid
      → collect_worktrees disk rs before ≡ ok after
      → is_referenced oid after.0 ≡ true
  unfolding collect_worktrees collect_tracked_lfs_pointer_oids
  collect_worktrees-contains r oid [] before after m refers e = elim m [ ]
  collect_worktrees-contains r oid (s ∷ rs) before after m refers e =
      let (next, f, g) = bind-eq-ok (collect_tracked_lfs_pointer_oids disk s before) _ e in
      elim m [
        | Memᴰ.tail n ↦ collect_worktrees-contains r oid rs next after n refers g
        | Memᴰ.head same ↦
            let (paths, t, collected) = bind-eq-ok (tracked_lfs_paths disk s) _ f in
            let refers' : RefersTo s oid = subst (λ q. RefersTo q oid) same refers in
            collect_worktrees-Grows rs next after g oid (
              collect_paths-contains s.worktree_root refers'.path oid paths before next
                (subst (Memᴰ refers'.path) (ok-injective (sym refers'.tracks ∙ t)) refers'.among)
                refers'.holds collected)
      ]

  -- What a worktree refers to is found.
  pub referenced_worktree_oids-contains :
      (r : LocalCacheWorktreeRegistration) (oid : LfsOid) (rs : List LocalCacheWorktreeRegistration)
      (references : References)
      → Memᴰ r rs
      → RefersTo r oid
      → referenced_worktree_oids disk rs ≡ ok references
      → is_referenced oid references.0 ≡ true
  unfolding referenced_worktree_oids
  referenced_worktree_oids-contains r oid rs references m refers e =
      collect_worktrees-contains r oid rs ([], []) references m refers e
