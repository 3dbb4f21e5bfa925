-- ===== src/Server/Batch/Lookup.antt =====
-- `batch_objects_with_storage_lookup` of src/server/batch.rs: each distinct object of a request is
-- looked up once. A lookup answers what `lookup` gives for its object while the request is served,
-- and `none` stands for the panic of `expect`.
pub mod Objects
pub mod Pointwise
pub mod Order
use lfs_cloud.Prelude.{ℕ, Option, none, some, [], ◌∷◌, List, map, Result, ok, err}
use mathlib.Core.Option
use lfs_cloud.Prelude.Text.{Text}
use lfs_cloud.Errors.{ServerError}
use lfs_cloud.Lfs.Oid.{LfsObject}
use lfs_cloud.Lfs.Batch.{
  LfsBatchDownloadObject, LfsBatchUploadObject, available, missing, needed, present, error,
}
use lfs_cloud.Server.Batch.Response.{lfs_batch_object_error_from_server_error}
use lfs_cloud.Server.Batch.Lookup.Objects.{unique_objects, get_outcome, insert_outcome}

-- `StoredObject` of src/providers.rs
pub record StoredObject : Type 0 where
  pub provider_id : Text
  pub repository_namespace : Text
  pub object : LfsObject
  pub backend_id : Text

unfoldable pub download_batch_lookup_outcome :
    LfsObject → Result ServerError (Option StoredObject) → LfsBatchDownloadObject
download_batch_lookup_outcome object (ok (some _)) = available object
download_batch_lookup_outcome object (ok none) = missing object
download_batch_lookup_outcome object (err e) =
    error object (lfs_batch_object_error_from_server_error e)

unfoldable pub upload_batch_lookup_outcome :
    LfsObject → Result ServerError (Option StoredObject) → LfsBatchUploadObject
upload_batch_lookup_outcome object (ok (some _)) = present object
upload_batch_lookup_outcome object (ok none) = needed object
upload_batch_lookup_outcome object (err e) =
    error object (lfs_batch_object_error_from_server_error e)

module _ {T : Type 0} where
  -- `collect::<BTreeMap<_, _>>()`, into a map that has entries already.
  unfoldable pub collect_into : List (LfsObject × T) → List (LfsObject × T) → List (LfsObject × T)
  collect_into m [] = m
  collect_into m ((o, x) ∷ entries) = collect_into (insert_outcome o x m) entries

  abbrev pub prepend : Option T → Option (List T) → Option (List T)
  prepend none rest = none
  prepend (some x) rest = Option.map (λ xs. x ∷ xs) rest

  unfoldable pub outcomes_of : List (LfsObject × T) → List LfsObject → Option (List T)
  outcomes_of outcomes [] = some []
  outcomes_of outcomes (o ∷ requested) =
      prepend (get_outcome o outcomes) (outcomes_of outcomes requested)

  -- The lookups of the objects: the objects that are asked for, and the pairs that are collected.
  -- `buffered` runs several at a time, and gives their results in the order of the objects.
  unfoldable pub look_up_each :
      (LfsObject → Result ServerError (Option StoredObject))
      → (LfsObject → Result ServerError (Option StoredObject) → T)
      → List LfsObject
      → List LfsObject × List (LfsObject × T)
  look_up_each lookup outcome_from_lookup [] = ([], [])
  look_up_each lookup outcome_from_lookup (o ∷ objects) =
      let (asked, entries) = look_up_each lookup outcome_from_lookup objects in
      (o ∷ asked, (o, outcome_from_lookup o (lookup o)) ∷ entries)

  -- The objects that the storage is asked for, with the result.
  unfoldable pub batch_objects_with_lookups :
      (LfsObject → Result ServerError (Option StoredObject))
      → List LfsObject
      → (LfsObject → Result ServerError (Option StoredObject) → T)
      → List LfsObject × Option (List T)
  batch_objects_with_lookups lookup requested outcome_from_lookup =
      let (asked, entries) = look_up_each lookup outcome_from_lookup (unique_objects requested) in
      (asked, outcomes_of (collect_into [] entries) requested)

  unfoldable pub batch_objects_with_storage_lookup :
      (LfsObject → Result ServerError (Option StoredObject))
      → List LfsObject
      → (LfsObject → Result ServerError (Option StoredObject) → T)
      → Option (List T)
  batch_objects_with_storage_lookup lookup requested outcome_from_lookup =
      (batch_objects_with_lookups lookup requested outcome_from_lookup).1
