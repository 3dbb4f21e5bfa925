-- ===== src/Lfs/Pointer/WellFormed.antt =====
-- The invariant of `LfsPointer`, which parsing and `insert_extension` establish and keep.
use lfs_cloud.Prelude.{
  ℕ, ◌<◌, ◌≡◌, refl, not, Option, none, some, [], ◌∷◌, List, is_empty, ok, bind-eq-ok, ok-injective,
  arith, Bool-cases, ok_or, ok_or-eq-ok, guard, inl, inr, subst,
}
use lfs_cloud.Prelude.Text.{Text, strip_prefix, split_once, len}
use lfs_cloud.Prelude.Text.Lines.{lines}
use lfs_cloud.Prelude.Decimal.{u64_bound, from_str-lt}
use lfs_cloud.Lfs.Error.{
  pointer_oid_missing_sha256_prefix, pointer_unexpected_line, pointer_missing_oid,
  pointer_missing_size,
}
use lfs_cloud.Lfs.Oid.{LfsOid, sha256_prefix, from_canonical_sha256_hex}
use lfs_cloud.Lfs.Oid.Laws.{IsCanonical, from_canonical_sha256_hex_iff}
use lfs_cloud.Lfs.Pointer.Extension.{
  insert_extension_record, normalize_extension_value, validate_extension_key,
}
use lfs_cloud.Lfs.Pointer.{
  LfsPointer, Fields, no_fields, lfs_pointer_version, insert_extension, parse_pointer_oid,
  parse_field, read_oid, read_size, size_or_error, read_extension, parse_line, parse_fields,
  parse_lines, parse, parse_version, out_of_order, empty_pointer, drop_blank,
}
use lfs_cloud.Lfs.Pointer.Records.{
  Increasing, insert_extension_record-Increasing, normalize_extension_value-IsPointerOid,
}

pub record IsWellFormed (p : LfsPointer) : Type 0 where
  pub version_ok : p.version ≡ lfs_pointer_version
  pub oid_ok : IsCanonical p.object.oid
  pub size_ok : p.object.size < u64_bound
  pub extensions_ok : Increasing 0 p.extensions

size_or_error-lt : (v : Text) (n : ℕ) → size_or_error v ≡ ok n → n < u64_bound
unfolding size_or_error
size_or_error-lt v n h = ground (arith, from_str-lt v n)

parse_pointer_oid-IsCanonical : (v : Text) (o : LfsOid) → parse_pointer_oid v ≡ ok o → IsCanonical o
unfolding parse_pointer_oid
parse_pointer_oid-IsCanonical v o h =
    let (hex, _, accepted) =
      bind-eq-ok (ok_or (strip_prefix sha256_prefix v) (pointer_oid_missing_sha256_prefix v))
        from_canonical_sha256_hex h in
    ((from_canonical_sha256_hex_iff hex o).0 accepted).1

abbrev WhenSome {ℓ} : {A : Type ℓ} → (A → Type 0) → Option A → Type 0
WhenSome P none = Unit
WhenSome P (some a) = P a

-- What holds of the loop's variables between two lines.
record FieldsOk (s : Fields) : Type 0 where
  extensions_ok : Increasing 0 s.extensions
  oid_ok : WhenSome IsCanonical s.oid
  size_ok : WhenSome (λ n. n < u64_bound) s.size

read_oid-FieldsOk : (v : Text) (s s' : Fields) → read_oid v s ≡ ok s' → FieldsOk s → FieldsOk s'
unfolding read_oid
read_oid-FieldsOk v s s' h f =
    let (o, parsed, e) = bind-eq-ok (parse_pointer_oid v) (λ o. ok (record s { oid = some o })) h in
    subst FieldsOk (ok-injective e) (record {
      extensions_ok = f.extensions_ok;
      oid_ok = parse_pointer_oid-IsCanonical v o parsed;
      size_ok = f.size_ok;
    })

read_size-FieldsOk : (v : Text) (s s' : Fields) → read_size v s ≡ ok s' → FieldsOk s → FieldsOk s'
unfolding read_size
read_size-FieldsOk v s s' h f =
    let (n, parsed, e) = bind-eq-ok (size_or_error v) (λ n. ok (record s { size = some n })) h in
    subst FieldsOk (ok-injective e) (record {
      extensions_ok = f.extensions_ok;
      oid_ok = f.oid_ok;
      size_ok = size_or_error-lt v n parsed;
    })

read_extension-FieldsOk :
    (k v : Text) (s s' : Fields) → read_extension k v s ≡ ok s' → FieldsOk s → FieldsOk s'
unfolding read_extension
read_extension-FieldsOk k v s s' h f =
    let (v', normal, h1) = bind-eq-ok (normalize_extension_value k v) _ h in
    let (m, inserted, e) =
      bind-eq-ok (insert_extension_record s.extensions k v') (λ m. ok (record s { extensions = m }))
        h1 in
    subst FieldsOk (ok-injective e) (record {
      extensions_ok =
          insert_extension_record-Increasing s.extensions m k v' inserted
            (normalize_extension_value-IsPointerOid k v v' normal) f.extensions_ok;
      oid_ok = f.oid_ok;
      size_ok = f.size_ok;
    })

parse_field-FieldsOk :
    (line k v : Text) (s s' : Fields) → parse_field line k v s ≡ ok s' → FieldsOk s → FieldsOk s'
unfolding parse_field
parse_field-FieldsOk line k v s s' h f =
    ground
      (arith, read_oid-FieldsOk v s s', read_size-FieldsOk v s s', read_extension-FieldsOk k v s s')

parse_line-FieldsOk :
    (line : Text) (s s' : Fields) → parse_line line s ≡ ok s' → FieldsOk s → FieldsOk s'
unfolding parse_line
parse_line-FieldsOk line s s' h f =
    let (p, _, h1) = bind-eq-ok (ok_or (split_once b' ' line) (pointer_unexpected_line line)) _ h in
    let (_, _, h2) =
      bind-eq-ok (guard (not (out_of_order s.previous_key p.0)) (pointer_unexpected_line line)) _
        h1 in
    parse_field-FieldsOk line p.0 p.1 (record s { previous_key = some p.0 }) s' h2
      (record { extensions_ok = f.extensions_ok; oid_ok = f.oid_ok; size_ok = f.size_ok })

parse_fields-FieldsOk :
    (ls : List Text) (s s' : Fields) → parse_fields ls s ≡ ok s' → FieldsOk s → FieldsOk s'
unfolding parse_fields
parse_fields-FieldsOk [] s s' h f = subst FieldsOk (ok-injective h) f
parse_fields-FieldsOk (line ∷ ls) s s' h f =
    let (t, first, rest) = bind-eq-ok (parse_line line s) (parse_fields ls) h in
    parse_fields-FieldsOk ls t s' rest (parse_line-FieldsOk line s t first f)

at_some {ℓ} : {A : Type ℓ} (P : A → Type 0) (o : Option A) (a : A) → o ≡ some a → WhenSome P o → P a
at_some P o a e h = rw e at h

parse_lines-IsWellFormed :
    (ls : List Text) (p : LfsPointer) → parse_lines ls ≡ ok p → IsWellFormed p
unfolding parse_lines
parse_lines-IsWellFormed [] p h = cc
parse_lines-IsWellFormed (line ∷ ls) p h =
    let (_, _, h1) = bind-eq-ok (parse_version line) _ h in
    let (s, fields, h2) = bind-eq-ok (parse_fields ls no_fields) _ h1 in
    let (o, oid, h3) = bind-eq-ok (ok_or s.oid pointer_missing_oid) _ h2 in
    let (n, size, h4) = bind-eq-ok (ok_or s.size pointer_missing_size) _ h3 in
    let f =
      parse_fields-FieldsOk ls no_fields s fields
        (record { extensions_ok = tt; oid_ok = tt; size_ok = tt }) in
    subst IsWellFormed (ok-injective h4) (record {
      version_ok = refl;
      oid_ok = at_some IsCanonical s.oid o (ok_or-eq-ok s.oid _ oid) f.oid_ok;
      size_ok = at_some (λ n. n < u64_bound) s.size n (ok_or-eq-ok s.size _ size) f.size_ok;
      extensions_ok = f.extensions_ok;
    })

empty_pointer-IsWellFormed : IsWellFormed empty_pointer
unfolding len
empty_pointer-IsWellFormed = record {
  version_ok = refl;
  oid_ok = record { length_ok = refl; digits_ok = refl };
  size_ok = omega arith;
  extensions_ok = tt;
}

-- Whatever `LfsPointer::parse` accepts is well-formed.
pub parse-IsWellFormed : (contents : Text) (p : LfsPointer) → parse contents ≡ ok p → IsWellFormed p
unfolding parse
parse-IsWellFormed contents p h = elim (Bool-cases (is_empty contents)) [
  | inl e ↦ subst IsWellFormed {x = empty_pointer} (ground arith) empty_pointer-IsWellFormed
  | inr e ↦ parse_lines-IsWellFormed (drop_blank (lines contents)) p (ground arith)
]

-- `insert_extension` keeps a pointer well-formed.
pub insert_extension-IsWellFormed :
    (p p' : LfsPointer) (key value : Text)
    → insert_extension p key value ≡ ok p'
    → IsWellFormed p
    → IsWellFormed p'
unfolding insert_extension
insert_extension-IsWellFormed p p' key value h w =
    let (_, _, h1) = bind-eq-ok (validate_extension_key key) _ h in
    let (v, normal, h2) = bind-eq-ok (normalize_extension_value key value) _ h1 in
    let (m, inserted, e) = bind-eq-ok (insert_extension_record p.extensions key v) _ h2 in
    subst IsWellFormed (ok-injective e) (record {
      version_ok = w.version_ok;
      oid_ok = w.oid_ok;
      size_ok = w.size_ok;
      extensions_ok =
          insert_extension_record-Increasing p.extensions m key v inserted
            (normalize_extension_value-IsPointerOid key value v normal) w.extensions_ok;
    })
