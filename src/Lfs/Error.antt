-- ===== src/Lfs/Error.antt =====
-- `LfsObjectError` of src/lfs.rs, with the fields that the code fills in.
use lfs_cloud.Prelude.{ℕ}
use lfs_cloud.Prelude.Text.{Text}
use lfs_cloud.Prelude.Decimal.{ParseIntError}

pub data LfsObjectError : Type 0 where
  empty_oid : LfsObjectError
  unsupported_oid_algorithm : Text → LfsObjectError
  invalid_sha256_length : ℕ → LfsObjectError
  invalid_sha256_hex : ℕ → LfsObjectError
  non_canonical_sha256_hex : ℕ → LfsObjectError
  pointer_missing_version : LfsObjectError
  pointer_invalid_version : Text → LfsObjectError
  pointer_missing_oid : LfsObjectError
  pointer_oid_missing_sha256_prefix : Text → LfsObjectError
  pointer_missing_size : LfsObjectError
  pointer_invalid_size : Text → ParseIntError → LfsObjectError
  pointer_too_large : ℕ → ℕ → LfsObjectError
  pointer_invalid_extension_key : Text → LfsObjectError
  pointer_invalid_extension_value : Text → LfsObjectError
  pointer_duplicate_extension_priority : ℕ → LfsObjectError
  pointer_unexpected_line : Text → LfsObjectError
