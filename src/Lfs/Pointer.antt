-- ===== src/Lfs/Pointer.antt =====
-- `LfsPointer` of src/lfs.rs: parsing, rendering and extension records of pointer files.
pub mod Extension
pub mod Records
pub mod WellFormed
pub mod RoundTrip
pub mod Insertion
use lfs_cloud.Prelude.{
  ℕ, Bool, true, false, not, ◌&&◌, Option, none, some, [], ◌∷◌, ◌++◌, List, ◌==◌, leb,
  if◌then◌else◌, any, is_empty, Result, ok, err, ◌>>=◌, ◌>>◌, guard, ok_or,
}
use mathlib.Core.List.{filter}
use lfs_cloud.Prelude.Text.{Text, codes, len, text_eq, text_ltb, strip_prefix, split_once, trim}
use lfs_cloud.Prelude.Text.Lines.{lines}
use lfs_cloud.Prelude.Decimal.{to_string, from_str}
use lfs_cloud.Prelude.BTreeMap.{BTreeMap}
use lfs_cloud.Prelude.BTreeMap
use lfs_cloud.Lfs.Error.{
  LfsObjectError, pointer_missing_version, pointer_invalid_version, pointer_missing_oid,
  pointer_oid_missing_sha256_prefix, pointer_missing_size, pointer_invalid_size, pointer_too_large,
  pointer_unexpected_line,
}
use lfs_cloud.Lfs.Oid.{
  LfsOid, LfsObject, sha256_prefix, empty_sha256_hex, from_canonical_sha256_hex, as_pointer_oid,
}
use lfs_cloud.Lfs.Pointer.Extension.{
  is_valid_extension_key, validate_extension_key, insert_extension_record,
  normalize_extension_value,
}

abbrev pub lfs_pointer_version : Text
lfs_pointer_version = codes "https://git-lfs.github.com/spec/v1"

abbrev pub lfs_pointer_size_cutoff : ℕ
lfs_pointer_size_cutoff = 1024

abbrev pub lfs_pointer_version_aliases : List Text
lfs_pointer_version_aliases =
    codes "http://git-media.io/v/2"
    ∷ codes "https://hawser.github.com/spec/v1"
    ∷ lfs_pointer_version
    ∷ []

pub record LfsPointer : Type 0 where
  pub version : Text
  pub extensions : BTreeMap Text
  pub object : LfsObject

-- LfsPointer::new
unfoldable pub new : LfsObject → LfsPointer
new object = record { version = lfs_pointer_version; extensions = []; object = object }

-- LfsPointer::is_empty
unfoldable pub is_empty_pointer : LfsPointer → Bool
is_empty_pointer p = p.object.size == 0

unfoldable pub insert_extension : LfsPointer → Text → Text → Result LfsObjectError LfsPointer
insert_extension p key value = do
  validate_extension_key key
  value' ← normalize_extension_value key value
  extensions' ← insert_extension_record p.extensions key value'
  ok (record p { extensions = extensions' })

unfoldable pub parse_pointer_oid : Text → Result LfsObjectError LfsOid
parse_pointer_oid value = do
  oid_hex ← ok_or (strip_prefix sha256_prefix value) (pointer_oid_missing_sha256_prefix value)
  from_canonical_sha256_hex oid_hex

-- The variables of the loop over the lines.
pub record Fields : Type 0 where
  pub previous_key : Option Text
  pub extensions : BTreeMap Text
  pub oid : Option LfsOid
  pub size : Option ℕ

abbrev pub no_fields : Fields
no_fields = record { previous_key = none; extensions = []; oid = none; size = none }

-- `previous_key.is_some_and(|previous| key <= previous)`
abbrev pub out_of_order : Option Text → Text → Bool
out_of_order none key = false
out_of_order (some previous) key = not (text_ltb previous key)

unfoldable pub size_or_error : Text → Result LfsObjectError ℕ
size_or_error value = elim (from_str value) [
  | ok n ↦ ok n
  | err source ↦ err (pointer_invalid_size value source)
]

-- The arms of the `match key` of the loop.
unfoldable pub read_oid : Text → Fields → Result LfsObjectError Fields
read_oid value s = do oid' ← parse_pointer_oid value; ok (record s { oid = some oid' })

unfoldable pub read_size : Text → Fields → Result LfsObjectError Fields
read_size value s = do size' ← size_or_error value; ok (record s { size = some size' })

unfoldable pub read_extension : Text → Text → Fields → Result LfsObjectError Fields
read_extension key value s = do
  value' ← normalize_extension_value key value
  extensions' ← insert_extension_record s.extensions key value'
  ok (record s { extensions = extensions' })

unfoldable pub parse_field : Text → Text → Text → Fields → Result LfsObjectError Fields
parse_field line key value s =
    if text_eq key (codes "oid")
    then read_oid value s
    else if text_eq key (codes "size")
    then read_size value s
    else if is_valid_extension_key key
    then read_extension key value s
    else err (pointer_unexpected_line line)

-- One round of the loop.
unfoldable pub parse_line : Text → Fields → Result LfsObjectError Fields
parse_line line s = do
  p ← ok_or (split_once b' ' line) (pointer_unexpected_line line)
  guard (not (out_of_order s.previous_key p.0)) (pointer_unexpected_line line)
  parse_field line p.0 p.1 (record s { previous_key = some p.0 })

unfoldable pub parse_fields : List Text → Fields → Result LfsObjectError Fields
parse_fields [] s = ok s
parse_fields (line ∷ rest) s = do s' ← parse_line line s; parse_fields rest s'

-- `filter(|line| !line.trim().is_empty())`
unfoldable pub drop_blank : List Text → List Text
drop_blank [] = []
drop_blank (line ∷ rest) =
    let kept = drop_blank rest in if is_empty (trim line) then kept else line ∷ kept

unfoldable pub parse_version : Text → Result LfsObjectError (Unit {0})
parse_version line = do
  version ← ok_or (strip_prefix (codes "version ") line) (pointer_unexpected_line line)
  guard (any (text_eq version) lfs_pointer_version_aliases) (pointer_invalid_version version)

unfoldable pub parse_lines : List Text → Result LfsObjectError LfsPointer
parse_lines [] = err pointer_missing_version
parse_lines (version_line ∷ rest) = do
  parse_version version_line
  s ← parse_fields rest no_fields
  oid ← ok_or s.oid pointer_missing_oid
  size ← ok_or s.size pointer_missing_size
  ok (record {
    version = lfs_pointer_version;
    extensions = s.extensions;
    object = record { oid = oid; size = size };
  })

abbrev pub empty_pointer : LfsPointer
empty_pointer = record {
  version = lfs_pointer_version;
  extensions = [];
  object = record { oid = record { hex = empty_sha256_hex }; size = 0 };
}

-- LfsPointer::parse
unfoldable pub parse : Text → Result LfsObjectError LfsPointer
parse contents =
    if leb lfs_pointer_size_cutoff (len contents)
    then err (pointer_too_large (len contents) lfs_pointer_size_cutoff)
    else if is_empty contents
    then ok empty_pointer
    else parse_lines (drop_blank (lines contents))

unfoldable pub render_fields : BTreeMap Text → Text
render_fields [] = []
render_fields ((key, value) ∷ rest) = (key ++ b' ' ∷ value) ++ 0xa ∷ render_fields rest

unfoldable pub to_pointer_file : LfsPointer → Text
to_pointer_file p =
    let oid = as_pointer_oid p.object.oid in
    let size = to_string p.object.size in
    let fields =
      BTreeMap.insert (codes "size") size (BTreeMap.insert (codes "oid") oid p.extensions) in
    if is_empty_pointer p then [] else (codes "version " ++ p.version) ++ 0xa ∷ render_fields fields
