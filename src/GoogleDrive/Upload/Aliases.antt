-- ===== src/GoogleDrive/Upload/Aliases.antt =====
-- Whose file src/google_drive/object_store.rs accepts, if a namespace looks like the digest of another.
use lfs_cloud.Prelude.{
  ℕ, ◌≡◌, refl, subst, inl, inr, true, not, Option, [], ◌∷◌, ◌++◌, List, ◌==◌, Result, ok, err,
  ◌>>=◌, guard, guard-eq-ok, ok_or, ok-injective, ap, bind-eq-ok, Bool-cases, arith,
}
use lfs_cloud.Prelude.Text.{Text, codes}
use lfs_cloud.Prelude.Decimal.{to_string, from_str}
use lfs_cloud.Errors.{StorageError}
use lfs_cloud.Server.Batch.Lookup.{StoredObject}
use lfs_cloud.GoogleDrive.ObjectKey.{
  GoogleDriveObjectKey, file_name, raw, sha256_of, namespace_property, value, format_pairs, pairs,
}
use lfs_cloud.GoogleDrive.Upload.Verification.{
  GoogleDriveObjectFile, same_text, non_blank, have_properties, parsed, verify_drive_object_file,
}

abbrev pub in_namespace : Text → StoredObject → StoredObject
in_namespace repo_namespace stored = record stored { repository_namespace = repo_namespace }

-- What follows a step may be replaced by what succeeds whenever it does.
module _ {E A B : Type 0} {y z : B} where
  bind-ok :
      (first : Result E A) (f g : A → Result E B)
      → ((x : A) → f x ≡ ok y → g x ≡ ok z)
      → first >>= f ≡ ok y
      → first >>= g ≡ ok z
  bind-ok (err e) f g goes_on h = absurd cc
  bind-ok (ok x) f g goes_on h = goes_on x h

in_namespace-ok :
    (repo_namespace : Text) (s t : StoredObject)
    → ◌≡◌ {A = Result StorageError StoredObject} (ok s) (ok t)
    → ◌≡◌ {A = Result StorageError StoredObject}
        (ok (in_namespace repo_namespace s))
        (ok (in_namespace repo_namespace t))
in_namespace-ok repo_namespace s t e = ap (λ u. ok (in_namespace repo_namespace u)) (ok-injective e)

-- A file that is accepted for an object is accepted for it in any namespace whose properties it has.
verify_in_namespace :
    (provider repo_namespace : Text) (j : GoogleDriveObjectKey) (ps qs : List (Text × Text))
    (status : ℕ) (file : GoogleDriveObjectFile) (stored : StoredObject)
    → have_properties file.app_properties qs ≡ true
    → verify_drive_object_file provider j ps status file ≡ ok stored
    → verify_drive_object_file provider
        (record j { repo_namespace = repo_namespace })
        qs
        status
        file
      ≡ ok (in_namespace repo_namespace stored)
unfolding verify_drive_object_file file_name
verify_in_namespace provider repo_namespace j ps qs status file stored has =
    bind-ok (ok_or (non_blank file.id) _) _ _ (λ id.
      bind-ok (guard (same_text file.name _) _) _ _ (λ _.
        bind-ok (guard (not file.trashed) _) _ _ (λ _ h.
          let (_, _, h') = bind-eq-ok (guard (have_properties file.app_properties ps) _) _ h in
          rw has (
            bind-ok (ok_or file.size _) _ _
              (λ size. bind-ok (parsed _ (from_str size)) _ _ (λ actual_size.
                bind-ok (guard (actual_size == j.object.size) _) _ _
                  (λ _ e. in_namespace-ok repo_namespace _ _ e)))
              h'))))

verified_properties :
    (provider : Text) (j : GoogleDriveObjectKey) (ps : List (Text × Text)) (status : ℕ)
    (file : GoogleDriveObjectFile) (stored : StoredObject)
    → verify_drive_object_file provider j ps status file ≡ ok stored
    → have_properties file.app_properties ps ≡ true
unfolding verify_drive_object_file
verified_properties provider j ps status file stored h =
    let (_, _, h1) = bind-eq-ok (ok_or (non_blank file.id) _) _ h in
    let (_, _, h2) = bind-eq-ok (guard (same_text file.name _) _) _ h1 in
    let (_, _, h3) = bind-eq-ok (guard (not file.trashed) _) _ h2 in
    let (_, has, _) = bind-eq-ok (guard (have_properties file.app_properties ps) _) _ h3 in
    guard-eq-ok _ _ has

have_properties-first :
    (found : Text → Option Text) (ps qs : List (Text × Text))
    → have_properties found (ps ++ qs) ≡ true
    → have_properties found ps ≡ true
unfolding have_properties
have_properties-first found [] qs h = refl
have_properties-first found ((property, expected) ∷ ps) qs h =
    elim (Bool-cases (same_text (found property) expected)) [
      | inl e ↦ rw e (have_properties-first found ps qs (ground arith))
      | inr e ↦ absurd (ground arith)
    ]

-- The properties of a key with a raw namespace are some of those of the key whose digest it is.
have_raw_properties :
    (sha256 : Text → Text) (j : GoogleDriveObjectKey) (d : Text) (found : Text → Option Text)
    → namespace_property sha256 j.repo_namespace ≡ sha256_of d
    → namespace_property sha256 d ≡ raw d
    → have_properties found (pairs sha256 j) ≡ true
    → have_properties found (pairs sha256 (record j { repo_namespace = d })) ≡ true
unfolding have_properties pairs
have_raw_properties sha256 j d found digest small h = rw small (
    have_properties-first found
      ((codes "lfsCloudVersion", codes "1")
        ∷ (codes "lfsCloudRepoNamespace", d)
        ∷ (codes "lfsCloudOid", j.object.oid.hex)
        ∷ (codes "lfsCloudSize", to_string j.object.size)
        ∷ [])
      ((codes "lfsCloudRepoNamespaceFormat", codes "sha256") ∷ [])
      (subst
        (λ n.
          have_properties found (
            (codes "lfsCloudVersion", codes "1")
            ∷ (codes "lfsCloudRepoNamespace", value n)
            ∷ (codes "lfsCloudOid", j.object.oid.hex)
            ∷ (codes "lfsCloudSize", to_string j.object.size)
            ∷ format_pairs n)
          ≡ true)
        digest h))

-- With the namespace of `j` so long that its digest `d` is stored in its place, and `d` short enough to
-- be a stored namespace itself: a file that is accepted for an object in the namespace of `j` is
-- accepted for the same object in the namespace `d`, which nothing requires to be untagged.
pub verify_drive_object_file-in_namespace :
    (sha256 : Text → Text) (provider d : Text) (j : GoogleDriveObjectKey) (status : ℕ)
    (file : GoogleDriveObjectFile) (stored : StoredObject)
    → namespace_property sha256 j.repo_namespace ≡ sha256_of d
    → namespace_property sha256 d ≡ raw d
    → verify_drive_object_file provider j (pairs sha256 j) status file ≡ ok stored
    → verify_drive_object_file provider
        (record j { repo_namespace = d })
        (pairs sha256 (record j { repo_namespace = d }))
        status
        file
      ≡ ok (in_namespace d stored)
verify_drive_object_file-in_namespace sha256 provider d j status file stored digest small h =
    verify_in_namespace provider d j (pairs sha256 j) _ status file stored
      (have_raw_properties sha256 j d file.app_properties digest small
        (verified_properties provider j (pairs sha256 j) status file stored h))
      h
