-- ===== src/Lfs/Oid.antt =====
-- `LfsOid` and `LfsObjectSize` of src/lfs.rs: validation of SHA-256 identifiers.
pub mod Laws
use lfs_cloud.Prelude.{
  ℕ, ◌+◌, ◌≡◌, refl, Bool, true, not, ◌||◌, Option, none, some, [], ◌∷◌, ◌++◌, List, map, ◌==◌,
  if◌then◌else◌, in_range, is_empty, Result, ok, err, ◌>>=◌, Bool-cases,
}
use lfs_cloud.Prelude.Text.{
  Text, codes, len, split_once, trim, text_eq, is_digit, is_hexdigit, to_lowercase,
}
use lfs_cloud.Lfs.Error.{
  LfsObjectError, empty_oid, unsupported_oid_algorithm, invalid_sha256_length, invalid_sha256_hex,
  non_canonical_sha256_hex,
}

pub record LfsOid : Type 0 where
  pub hex : Text

pub record LfsObject : Type 0 where
  pub oid : LfsOid
  -- `LfsObjectSize`, a u64
  pub size : ℕ

abbrev pub sha256_prefix : Text
sha256_prefix = codes "sha256:"

abbrev pub sha256_hex_length : ℕ
sha256_hex_length = 64

abbrev pub empty_sha256_hex : Text
empty_sha256_hex = codes "e3b0c44298fc1c149afbf4c8996fb92427ae41e4649b934ca495991b7852b855"

-- `0-9` and `a-f`, the digits of the canonical form
abbrev pub is_lower_hexdigit : ℕ → Bool
is_lower_hexdigit c = is_digit c || in_range b'a' b'f' c

-- The byte index of the first character that is refused: those before it are single bytes.
unfoldable pub find_not : (ℕ → Bool) → ℕ → Text → Option ℕ
find_not p i [] = none
find_not p i (c ∷ s) = let rest = find_not p (i + 1) s in if p c then rest else some i

unfoldable pub from_sha256_hex : Text → Result LfsObjectError LfsOid
from_sha256_hex hex =
    if not (len hex == sha256_hex_length)
    then err (invalid_sha256_length (len hex))
    else elim (find_not is_hexdigit 0 hex) [
      | some index ↦ err (invalid_sha256_hex index)
      | none ↦ ok (record { hex = map to_lowercase hex })
    ]

unfoldable pub from_canonical_sha256_hex : Text → Result LfsObjectError LfsOid
from_canonical_sha256_hex hex =
    if not (len hex == sha256_hex_length)
    then err (invalid_sha256_length (len hex))
    else elim (find_not is_lower_hexdigit 0 hex) [
      | some index ↦ err (non_canonical_sha256_hex index)
      | none ↦ ok (record { hex = hex })
    ]

-- The text after an optional `sha256:`.
unfoldable pub digest_part : Text → Result LfsObjectError Text
digest_part value = elim (split_once b':' value) [
  | none ↦ ok value
  | some (algorithm, hex) ↦
      if text_eq algorithm (codes "sha256")
      then ok hex
      else err (unsupported_oid_algorithm algorithm)
]

-- LfsOid::new
unfoldable pub new : Text → Result LfsObjectError LfsOid
new value =
    let value' = trim value in
    do hex ← (if is_empty value' then err empty_oid else digest_part value'); from_sha256_hex hex

-- LfsOid::as_pointer_oid
unfoldable pub as_pointer_oid : LfsOid → Text
as_pointer_oid oid = sha256_prefix ++ oid.hex

new_prefixed :
    new (codes " sha256:E3B0C44298FC1C149AFBF4C8996FB92427AE41E4649B934CA495991B7852B855 ")
    ≡ ok (record { hex = empty_sha256_hex })
unfolding new trim digest_part split_once text_eq from_sha256_hex len find_not to_lowercase
new_prefixed = refl

new_rejects_digit : new (codes "sha256:xyz") ≡ err (invalid_sha256_length 3)
unfolding new trim digest_part split_once text_eq from_sha256_hex len find_not to_lowercase
new_rejects_digit = refl
