-- ===== src/Lfs/Pointer/RoundTrip.antt =====
-- Parsing a rendered pointer file gives the pointer back.
mod Lacks
mod Loop
mod Body
use mathlib.Core.List.{append_assoc}
use lfs_cloud.Prelude.{
  ℕ, zero, suc, ◌+◌, ◌≤◌, ◌<◌, ◌≡◌, refl, sym, ap, Bool, true, false, not, ◌&&◌, Option, none, some,
  [], ◌∷◌, ◌++◌, List, map, ◌==◌, leb, if◌then◌else◌, any, all, All, All-append, is_empty, Result,
  ok, err, arith, Bool-cases, append-nil,
}
use lfs_cloud.Prelude.Text.{
  Text, codes, len, text_eq, text_ltb, text_eq_iff, text_eq_refl, strip_prefix, split_once, trim,
  is_ascii_whitespace, is_digit, is_whitespace,
}
use lfs_cloud.Prelude.Text.Trim.{solid, is_empty-trim_head, all-imp, all-append}
use lfs_cloud.Prelude.Text.Split.{lacks, strip_prefix-append, split_once-append}
use lfs_cloud.Prelude.Text.Lines.{lines, is_line, lines-cons, lines-nil}
use lfs_cloud.Prelude.Decimal.{
  u64_bound, to_string, from_str, from_str-to_string, all_digits-to_string,
}
use lfs_cloud.Prelude.BTreeMap.{BTreeMap, insert-last}
use lfs_cloud.Prelude.BTreeMap
use lfs_cloud.Lfs.Error.{LfsObjectError}
use lfs_cloud.Lfs.Oid.{
  LfsOid, is_lower_hexdigit, sha256_prefix, from_canonical_sha256_hex, as_pointer_oid,
}
use lfs_cloud.Lfs.Oid.Laws.{IsCanonical, from_canonical_sha256_hex_iff}
use lfs_cloud.Lfs.Pointer.Extension.{
  extension_priority, same_priority, checked_insert, is_valid_extension_key,
  insert_extension_record, normalize_extension_value,
}
use lfs_cloud.Lfs.Pointer.Extension.Keys.{
  text_ltb-keys, no_whitespace-key, BeforeCore, BeforeCore-key, extension_priority-shape,
}
use lfs_cloud.Lfs.Pointer.{
  LfsPointer, Fields, no_fields, lfs_pointer_version, lfs_pointer_size_cutoff, parse_pointer_oid,
  parse_field, read_oid, read_size, size_or_error, out_of_order, read_extension, parse_line,
  parse_fields, parse_lines, parse, parse_version, drop_blank, to_pointer_file, render_fields,
  is_empty_pointer,
}
use lfs_cloud.Lfs.Pointer.Records.{IsPointerOid, Increasing}
use lfs_cloud.Lfs.Pointer.WellFormed.{IsWellFormed}
use lfs_cloud.Lfs.Pointer.RoundTrip.Loop.{oid_line, size_line, record_lines, parse_fields-records}
use lfs_cloud.Lfs.Pointer.RoundTrip.Body.{drop_blank-cons, core_entries, drop_blank-records}

-- `oid` and `size` go behind the extension records.
Above-core :
    (key : Text) (m : BTreeMap Text) (lo : ℕ)
    → ((k : Text) (a : ℕ) → extension_priority k ≡ some a → text_ltb k key ≡ true)
    → Increasing lo m
    → BTreeMap.Above key m
Above-core key [] lo before inc = tt
Above-core key ((k, v) ∷ m) lo before (a, hk, le, hv, inc) =
    (before k a hk, Above-core key m (suc a) before inc)

Above-append_oid :
    (m : BTreeMap Text) (lo : ℕ) (v : Text)
    → Increasing lo m
    → BTreeMap.Above (codes "size") (m ++ (codes "oid", v) ∷ [])
unfolding text_ltb
Above-append_oid m lo v inc =
    All-append (λ (e : Text × Text). (text_ltb e.0 (codes "size") ≡ true)) m ((codes "oid", v) ∷ [])
      (Above-core (codes "size") m lo (λ k a h. (BeforeCore-key k a h).lt_size) inc) (refl, tt)

inserted_core :
    (m : BTreeMap Text) (o : LfsOid) (n lo : ℕ)
    → Increasing lo m
    → BTreeMap.insert
        (codes "size")
        (to_string n)
        (BTreeMap.insert (codes "oid") (as_pointer_oid o) m)
      ≡ m ++ core_entries o n
unfolding core_entries
inserted_core m o n lo inc = rw (
  insert-last (codes "oid") (as_pointer_oid o) m
      (Above-core (codes "oid") m lo (λ k a h. (BeforeCore-key k a h).lt_oid) inc),
  insert-last (codes "size") (to_string n) (m ++ (codes "oid", as_pointer_oid o) ∷ [])
      (Above-append_oid m lo (as_pointer_oid o) inc),
  append_assoc,
)

version_line : Text
version_line = codes "version " ++ lfs_pointer_version

parse_version-current : parse_version version_line ≡ ok tt
unfolding parse_version version_line strip_prefix text_eq
parse_version-current = refl

parse_lines-rendered :
    (m : BTreeMap Text) (o : LfsOid) (n : ℕ)
    → Increasing 0 m
    → IsCanonical o
    → n < u64_bound
    → parse_lines (version_line ∷ record_lines m ++ oid_line o ∷ size_line n ∷ [])
      ≡ ok (record {
        version = lfs_pointer_version;
        extensions = m;
        object = record { oid = o; size = n };
      })
unfolding parse_lines
parse_lines-rendered m o n inc c h =
    rw (parse_version-current, parse_fields-records m no_fields o n 0 inc c h tt tt)

rendered :
    (p : LfsPointer)
    → IsWellFormed p
    → 0 < p.object.size
    → to_pointer_file p
      ≡ version_line
        ++ 0xa ∷ render_fields (p.extensions ++ core_entries p.object.oid p.object.size)
unfolding to_pointer_file is_empty_pointer version_line
rendered p w pos = rw (
  ne-zero p.object.size pos,
  w.version_ok,
  inserted_core p.extensions p.object.oid p.object.size 0 w.extensions_ok,
)
  where
    ne-zero : (n : ℕ) → 0 < n → (n == 0) ≡ false
    ne-zero n h = ground arith

parse-version_line :
    (body : Text) (p : LfsPointer)
    → len (version_line ++ 0xa ∷ body) < 1024
    → parse_lines (version_line ∷ drop_blank (lines body)) ≡ ok p
    → parse (version_line ++ 0xa ∷ body) ≡ ok p
unfolding parse version_line is_whitespace
parse-version_line body p small parsed = ground (arith, drop_blank-cons version_line body refl refl)

-- Rendering a well-formed pointer of a non-empty object and parsing the file gives the pointer
-- back, if the file stays below the cutoff.
pub parse-to_pointer_file :
    (p : LfsPointer)
    → IsWellFormed p
    → 0 < p.object.size
    → len (to_pointer_file p) < lfs_pointer_size_cutoff
    → parse (to_pointer_file p) ≡ ok p
parse-to_pointer_file p w pos small =
    let m = p.extensions in
    let o = p.object.oid in
    let n = p.object.size in
    rw (rendered p w pos) (
      parse-version_line (render_fields (m ++ core_entries o n)) p (rw (rendered p w pos) at small)
        (rw
          (
            drop_blank-records m o n 0 w.extensions_ok w.oid_ok,
            parse_lines-rendered m o n w.extensions_ok w.oid_ok w.size_ok,
          )
          (cc w.version_ok)))
