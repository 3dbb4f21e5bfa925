-- ===== src/GoogleDrive/ObjectKey/Properties.antt =====
-- What the private properties of an object in src/google_drive/object_key.rs tell apart.
use lfs_cloud.Prelude.{ℕ, ◌<◌, ◌≡◌, zero, suc, sym, ap, ◌∙◌, [], ◌∷◌, List, ok-injective, arith}
use lfs_cloud.Prelude.Text.{Text}
use lfs_cloud.Prelude.Decimal.{u64_bound, to_string, from_str, from_str-to_string}
use lfs_cloud.GoogleDrive.ObjectKey.{
  GoogleDriveObjectKey, GoogleDriveRepositoryNamespaceProperty, raw, sha256_of, namespace_property,
  value, format_pairs, pairs,
}

same_property :
    (a b : GoogleDriveRepositoryNamespaceProperty)
    → value a ≡ value b
    → format_pairs a ≡ format_pairs b
    → a ≡ b
same_property (raw s) (raw t) h e = ap raw h
same_property (raw s) (sha256_of t) h e = cc
same_property (sha256_of s) (raw t) h e = cc
same_property (sha256_of s) (sha256_of t) h e = ap sha256_of h

to_string-injective : (m n : ℕ) → m < u64_bound → n < u64_bound → to_string m ≡ to_string n → m ≡ n
to_string-injective m n hm hn e =
    ok-injective (sym (from_str-to_string m hm) ∙ ap from_str e ∙ from_str-to_string n hn)

abbrev value_at : ℕ → List (Text × Text) → Text
value_at i [] = []
value_at zero (p ∷ ps) = p.1
value_at (suc i) (p ∷ ps) = value_at i ps

abbrev after_four : List (Text × Text) → List (Text × Text)
after_four (_ ∷ _ ∷ _ ∷ _ ∷ ps) = ps
after_four _ = []

module _ (sha256 : Text → Text) where
  namespace_property-injective :
      (m n : Text)
      → (sha256 m ≡ sha256 n → m ≡ n)
      → namespace_property sha256 m ≡ namespace_property sha256 n
      → m ≡ n
  unfolding namespace_property
  namespace_property-injective m n no_collision e = ground (arith, no_collision)

  -- Objects with the same private properties are the same object of the same repository, if the digest
  -- tells their namespaces apart and their sizes are u64.
  pub pairs-injective :
      (j k : GoogleDriveObjectKey)
      → (sha256 j.repo_namespace ≡ sha256 k.repo_namespace → j.repo_namespace ≡ k.repo_namespace)
      → j.object.size < u64_bound
      → k.object.size < u64_bound
      → pairs sha256 j ≡ pairs sha256 k
      → j ≡ k
  unfolding pairs
  pairs-injective j k no_collision hj hk e =
      let n =
        namespace_property-injective j.repo_namespace k.repo_namespace no_collision
          (same_property _ _ (ap (value_at 1) e) (ap after_four e)) in
      let o : j.object.oid.hex ≡ k.object.oid.hex = ap (value_at 2) e in
      let s = to_string-injective j.object.size k.object.size hj hk (ap (value_at 3) e) in
      λ i. record {
        repo_namespace = n i;
        object = record { oid = record { hex = o i }; size = s i };
      }
