-- ===== src/Lfs/Pointer/Extension.antt =====
-- Extension records of a pointer file: keys `ext-N-NAME` with one-digit priorities.
pub mod Keys
use lfs_cloud.Prelude.{
  ℕ, ◌-◌, Bool, false, not, ◌&&◌, ◌||◌, Option, none, some, [], ◌∷◌, ◌==◌, ltb, leb, if◌then◌else◌,
  and_then, any, is_some, Result, ok, err, ◌>>=◌, guard, ok_or,
}
use lfs_cloud.Prelude.Text.{
  Text, codes, len, text_eq, strip_prefix, split_once, is_alphanumeric, is_ascii_whitespace,
}
use lfs_cloud.Prelude.BTreeMap.{BTreeMap}
use lfs_cloud.Prelude.BTreeMap
use lfs_cloud.Lfs.Error.{
  LfsObjectError, pointer_invalid_extension_key, pointer_invalid_extension_value,
  pointer_duplicate_extension_priority,
}
use lfs_cloud.Lfs.Oid.{sha256_prefix, from_canonical_sha256_hex, as_pointer_oid}

abbrev pub starts_with_name_char : Text → Bool
starts_with_name_char [] = false
starts_with_name_char (c ∷ name) = is_alphanumeric c || c == b'_'

-- `checked_sub(b'0')`, then the filter
abbrev pub priority_digit : Text → Option ℕ
priority_digit [] = none
priority_digit (c ∷ _) =
    if ltb c b'0' then none else if leb (c - b'0') 9 then some (c - b'0') else none

unfoldable pub priority_of : Text → Text → Option ℕ
priority_of priority name =
    if not (len priority == 1) || not (starts_with_name_char name) || any is_ascii_whitespace name
    then none
    else priority_digit priority

unfoldable pub extension_priority : Text → Option ℕ
extension_priority key =
    and_then (strip_prefix (codes "ext-") key)
      λ extension_name. and_then (split_once b'-' extension_name) λ p. priority_of p.0 p.1

unfoldable pub is_valid_extension_key : Text → Bool
is_valid_extension_key key = is_some (extension_priority key)

unfoldable pub validate_extension_key : Text → Result LfsObjectError (Unit {0})
validate_extension_key key = guard (is_valid_extension_key key) (pointer_invalid_extension_key key)

abbrev pub same_priority : ℕ → Text → Bool
same_priority priority key = elim (extension_priority key) [ none ↦ false | some p ↦ p == priority ]

abbrev pub checked_insert : BTreeMap Text → Text → Text → ℕ → Result LfsObjectError (BTreeMap Text)
checked_insert extensions key value priority =
    let clash = λ (e : Text × Text). not (text_eq e.0 key) && same_priority priority e.0 in
    if any clash extensions
    then err (pointer_duplicate_extension_priority priority)
    else ok (BTreeMap.insert key value extensions)

unfoldable pub insert_extension_record :
    BTreeMap Text → Text → Text → Result LfsObjectError (BTreeMap Text)
insert_extension_record extensions key value = do
  priority ← ok_or (extension_priority key) (pointer_invalid_extension_key key)
  checked_insert extensions key value priority

unfoldable pub normalize_extension_value : Text → Text → Result LfsObjectError Text
normalize_extension_value key value =
    if any (λ c. c == 0xd) value || any (λ c. c == 0xa) value
    then err (pointer_invalid_extension_value key)
    else elim (strip_prefix sha256_prefix value) [
      | none ↦ err (pointer_invalid_extension_value key)
      | some oid_hex ↦ elim (from_canonical_sha256_hex oid_hex) [
        | ok oid ↦ ok (as_pointer_oid oid)
        | err _ ↦ err (pointer_invalid_extension_value key)
      ]
    ]
