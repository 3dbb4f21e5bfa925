-- ===== src/Lfs/Pointer/Insertion.antt =====
-- What `insert_extension` changes, and which keys and values it refuses.
use lfs_cloud.Prelude.{
  ◌≡◌, ◌≢◌, ap, some, ok, bind-eq-ok, ok-injective, Option-cases, Result-cases, inl, inr, arith,
}
use lfs_cloud.Prelude.Text.{Text, text_eq_iff, text_eq_refl, strip_prefix}
use lfs_cloud.Prelude.Text.Split.{strip_prefix-eq-some}
use lfs_cloud.Prelude.BTreeMap.{get-insert}
use lfs_cloud.Prelude.BTreeMap
use lfs_cloud.Lfs.Oid.{sha256_prefix, from_canonical_sha256_hex, as_pointer_oid}
use lfs_cloud.Lfs.Oid.Laws.{from_canonical_sha256_hex_iff}
use lfs_cloud.Lfs.Pointer.Extension.{
  checked_insert, insert_extension_record, normalize_extension_value, validate_extension_key,
}
use lfs_cloud.Lfs.Pointer.{LfsPointer, insert_extension}

normalized : (k v v' : Text) → normalize_extension_value k v ≡ ok v' → v' ≡ v
unfolding normalize_extension_value as_pointer_oid
normalized k v v' h = elim (Option-cases (strip_prefix sha256_prefix v)) [
  | inl e ↦ absurd (ground arith)
  | inr (hex, e) ↦ elim (Result-cases (from_canonical_sha256_hex hex)) [
    | inl (o, accepted) ↦ ground (
      arith,
      strip_prefix-eq-some sha256_prefix v hex e,
      ((from_canonical_sha256_hex_iff hex o).0 accepted).0,
    )
    | inr (x, refused) ↦ absurd (ground arith)
  ]
]

inserted :
    (m m' : BTreeMap.BTreeMap Text) (k v : Text)
    → insert_extension_record m k v ≡ ok m'
    → m' ≡ BTreeMap.insert k v m
unfolding insert_extension_record
inserted m m' k v h =
    let (a, _, rest) = bind-eq-ok _ (checked_insert m k v) h in ground (arith, rest)

-- After a successful insertion the key has exactly the given value, every other key has what it
-- had, and the version and the object are the old ones.
pub get-insert_extension :
    (p p' : LfsPointer) (key value : Text)
    → insert_extension p key value ≡ ok p'
    → (BTreeMap.get key p'.extensions ≡ some value)
      × ((j : Text) → j ≢ key → BTreeMap.get j p'.extensions ≡ BTreeMap.get j p.extensions)
      × (p'.version ≡ p.version)
      × (p'.object ≡ p.object)
unfolding insert_extension
get-insert_extension p p' key value h =
    let (_, _, h1) = bind-eq-ok (validate_extension_key key) _ h in
    let (v, normal, h2) = bind-eq-ok (normalize_extension_value key value) _ h1 in
    let (m, added, e) = bind-eq-ok (insert_extension_record p.extensions key v) _ h2 in
    let m_eq = inserted p.extensions m key v added in
    let v_eq = normalized key value v normal in
    let p_eq : record p { extensions = m } ≡ p' = ok-injective e in
    (
      rw (← p_eq, m_eq, get-insert, text_eq_refl key) (ap some v_eq),
      λ j ne. rw (← p_eq, m_eq, get-insert) (ground (arith, text_eq_iff j key)),
      rw (← p_eq),
      rw (← p_eq),
    )
