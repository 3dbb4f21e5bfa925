-- ===== src/Lfs/Tests.antt =====
-- Object identifiers and pointer files by example, and the theorems at the examples.
use lfs_cloud.Prelude.{◌-◌, map, ◌≡◌, ◌≢◌, ◌↔◌, refl, ok, some, [], ◌∷◌, ◌++◌, arith}
use lfs_cloud.Prelude.Text.{
  Text, codes, len, text_eq, text_ltb, strip_prefix, split_once, trim, to_lowercase,
}
use lfs_cloud.Prelude.Text.Lines.{lines}
use lfs_cloud.Prelude.Decimal.{from_str, to_string}
use lfs_cloud.Prelude.BTreeMap
use lfs_cloud.Lfs.Oid.{
  LfsOid, find_not, digest_part, from_sha256_hex, from_canonical_sha256_hex, as_pointer_oid,
}
use lfs_cloud.Lfs.Oid
use lfs_cloud.Lfs.Oid.Laws.{IsCanonical, new-IsCanonical, from_canonical_sha256_hex_iff}
use lfs_cloud.Lfs.Pointer.{
  LfsPointer, parse, to_pointer_file, insert_extension, drop_blank, parse_lines, parse_version,
  parse_fields, parse_line, parse_field, read_oid, read_size, parse_pointer_oid, size_or_error,
  render_fields, is_empty_pointer,
}
use lfs_cloud.Lfs.Pointer.Extension.{
  validate_extension_key, is_valid_extension_key, extension_priority, priority_of,
  normalize_extension_value, insert_extension_record,
}
use lfs_cloud.Lfs.Pointer.WellFormed.{
  IsWellFormed, parse-IsWellFormed, insert_extension-IsWellFormed,
}
use lfs_cloud.Lfs.Pointer.RoundTrip.{parse-to_pointer_file}
use lfs_cloud.Lfs.Pointer.Insertion.{get-insert_extension}

abbrev digest : Text
digest = codes "aaaaaaaaaaaaaaaaaaaaaaaaaaaaaaaaaaaaaaaaaaaaaaaaaaaaaaaaaaaaaaaa"

abbrev extension_key : Text
extension_key = codes "ext-1-clean"

abbrev extension_value : Text
extension_value = codes "sha256:" ++ digest

abbrev plain : LfsPointer
plain = record {
  version = codes "https://git-lfs.github.com/spec/v1";
  extensions = [];
  object = record { oid = record { hex = digest }; size = 42 };
}

abbrev extended : LfsPointer
extended = record plain { extensions = (extension_key, extension_value) ∷ [] }

abbrev plain_file : Text
plain_file =
    codes "version http://git-media.io/v/2\r\n\n"
    ++ codes "oid sha256:"
    ++ digest
    ++ codes "\nsize +42"

plain_parses : parse plain_file ≡ ok plain
unfolding parse lines drop_blank parse_lines parse_version parse_fields parse_line parse_field
    read_oid read_size parse_pointer_oid size_or_error from_str from_canonical_sha256_hex find_not
    len text_eq text_ltb strip_prefix split_once trim
plain_parses = refl

plain_renders :
    to_pointer_file plain
    ≡ codes "version https://git-lfs.github.com/spec/v1\noid sha256:"
      ++ digest
      ++ codes "\nsize 42\n"
unfolding to_pointer_file render_fields is_empty_pointer as_pointer_oid to_string BTreeMap.insert
plain_renders = refl

plain_extends : insert_extension plain extension_key extension_value ≡ ok extended
unfolding insert_extension validate_extension_key is_valid_extension_key extension_priority
    priority_of normalize_extension_value insert_extension_record as_pointer_oid BTreeMap.insert
    from_canonical_sha256_hex find_not len text_eq strip_prefix split_once
plain_extends = refl

digest-IsCanonical : IsCanonical (record { hex = digest })
unfolding len
digest-IsCanonical = record { length_ok = refl; digits_ok = refl }

uppercase_accepted :
    Oid.new (codes " sha256:" ++ map (λ c. c - 32) digest) ≡ ok (record { hex = digest })
unfolding Oid.new trim digest_part split_once text_eq from_sha256_hex len find_not to_lowercase
uppercase_accepted = refl

new-IsCanonical_example : IsCanonical (record { hex = digest })
new-IsCanonical_example = new-IsCanonical _ (record { hex = digest }) uppercase_accepted

from_canonical_sha256_hex_iff_example :
    (from_canonical_sha256_hex (codes "AB") ≡ ok (record { hex = digest }))
    ↔ ((digest ≡ codes "AB") × IsCanonical (record { hex = digest }))
from_canonical_sha256_hex_iff_example =
    from_canonical_sha256_hex_iff (codes "AB") (record { hex = digest })

parse-IsWellFormed_example : IsWellFormed plain
parse-IsWellFormed_example = parse-IsWellFormed plain_file plain plain_parses

insert_extension-IsWellFormed_example : IsWellFormed extended
insert_extension-IsWellFormed_example =
    insert_extension-IsWellFormed plain extended extension_key extension_value plain_extends
      (parse-IsWellFormed plain_file plain plain_parses)

extended-IsWellFormed : IsWellFormed extended
extended-IsWellFormed =
    insert_extension-IsWellFormed plain extended extension_key extension_value plain_extends
      (parse-IsWellFormed plain_file plain plain_parses)

parse-to_pointer_file_example : parse (to_pointer_file extended) ≡ ok extended
unfolding to_pointer_file render_fields is_empty_pointer as_pointer_oid to_string BTreeMap.insert
    len
parse-to_pointer_file_example =
    parse-to_pointer_file extended extended-IsWellFormed (omega arith) (omega arith)

get-insert_extension_example :
    (BTreeMap.get extension_key extended.extensions ≡ some extension_value)
    × ((j : Text)
        → j ≢ extension_key
        → BTreeMap.get j extended.extensions ≡ BTreeMap.get j plain.extensions)
    × (extended.version ≡ plain.version)
    × (extended.object ≡ plain.object)
get-insert_extension_example =
    get-insert_extension plain extended extension_key extension_value plain_extends
