-- ===== src/GoogleDrive/Upload.antt =====
-- The resumable upload of src/google_drive/upload.rs and object_store.rs, from the session that Drive
-- has opened for it. What Drive answers, JSON, and the failures of reads are arguments.
pub mod Verification
pub mod Offsets
pub mod Rounds
pub mod Aliases
mod Tests
use lfs_cloud.Prelude.{
  ℕ, zero, suc, ◌+◌, ◌-◌, ◌≤◌, min, Bool, true, false, not, ◌||◌, Option, none, some, [], ◌∷◌, List,
  ◌==◌, leb, ltb, if◌then◌else◌, is_empty, Result, ok, err, ◌>>=◌, ◌>>◌, guard, ok_or, take, drop,
}
use lfs_cloud.Prelude.Text.{Text, codes, text_eq, trim, strip_prefix}
use lfs_cloud.Prelude.Decimal.{u64_bound, from_str}
use lfs_cloud.Errors.{StorageError, conflict, integrity_mismatch, retryable, upstream}
use lfs_cloud.Lfs.Oid.{LfsOid, LfsObject}
use lfs_cloud.Server.Batch.Lookup.{StoredObject}
use lfs_cloud.Server.Staging.Body.{Bytes}
use lfs_cloud.GoogleDrive.ObjectKey.{GoogleDriveObjectKey, file_name}
use lfs_cloud.GoogleDrive.Diagnostics.{DriveDiagnostic, transfer, parse_drive_upload_error}
use lfs_cloud.GoogleDrive.Upload.Verification.{
  GoogleDriveObjectFile, parsed, verify_drive_object_file,
}

pub data RangeHeader : Type 0 where
  missing not_text : RangeHeader
  text : Text → RangeHeader

-- A request cannot be built, or not be sent, or it has a response.
pub data Answer : Type 0 where
  unbuilt unsent : StorageError → Answer
  response : ℕ → RangeHeader → Result StorageError Text → Answer

-- The upload of an object: `answers` to the requests in their order, and the failure, if any, of the
-- read before each.
pub record Upload : Type 0 where
  pub provider : Text
  pub key : GoogleDriveObjectKey
  pub expected_properties : List (Text × Text)
  pub contents : Bytes
  pub file_from_json : Text → Option GoogleDriveObjectFile
  pub diagnose : Text → DriveDiagnostic
  pub answers : ℕ → Answer
  pub reads : ℕ → Option StorageError

pub data DriveResumableUploadProgress : Type 0 where
  complete : StoredObject → DriveResumableUploadProgress
  incomplete : ℕ → DriveResumableUploadProgress

abbrev pub chunk_size : ℕ
chunk_size = 262_144

abbrev pub max_recovery_attempts : ℕ
max_recovery_attempts = 4

abbrev pub is_retryable : StorageError → Bool
is_retryable (StorageError.retryable _ _) = true
is_retryable _ = false

unfoldable pub parse_drive_upload_success : Upload → ℕ → Text → Result StorageError StoredObject
parse_drive_upload_success upload status body =
    ok_or (upload.file_from_json body) (
      upstream upload.provider (some status)
        (codes "Google Drive upload completion response was invalid JSON"))
    >>= verify_drive_object_file upload.provider upload.key upload.expected_properties status

abbrev pub protocol_error : Text → Text → StorageError
protocol_error provider message = upstream provider (some 308) message

abbrev pub checked_offset : Text → ℕ → ℕ → ℕ → Result StorageError ℕ
checked_offset provider total_size maximum last_byte =
    let committed = last_byte + 1 in
    if leb u64_bound committed
    then err (
        protocol_error provider
          (codes "Google Drive resumable upload returned an overflowing Range header"))
    else if ltb maximum committed || leb total_size committed || total_size == 0
    then err (
        protocol_error provider
          (codes "Google Drive resumable upload returned an impossible Range header"))
    else ok committed

unfoldable pub parse_drive_resumable_upload_offset :
    Text → RangeHeader → ℕ → ℕ → Result StorageError ℕ
parse_drive_resumable_upload_offset provider missing total_size maximum = ok 0
parse_drive_resumable_upload_offset provider not_text total_size maximum = err (
    protocol_error provider
      (codes "Google Drive resumable upload returned a non-text Range header"))
parse_drive_resumable_upload_offset provider (text range) total_size maximum =
    let invalid =
      protocol_error provider
        (codes "Google Drive resumable upload returned an invalid Range header") in
    ok_or (strip_prefix (codes "bytes=0-") (trim range)) invalid >>= λ last_byte.
    parsed invalid (from_str last_byte) >>= checked_offset provider total_size maximum

abbrev pub with_body :
    Upload → ℕ → Result StorageError Text → Result StorageError DriveResumableUploadProgress
with_body upload status (err e) = err e
with_body upload status (ok body) =
    if status == 200 || status == 201
    then parse_drive_upload_success upload status body >>= (λ stored. ok (complete stored))
    else err (
        parse_drive_upload_error upload.provider upload.key.object transfer status
          (upload.diagnose body))

unfoldable pub parse_drive_resumable_upload_response :
    Upload
    → ℕ
    → ℕ × RangeHeader × Result StorageError Text
    → Result StorageError DriveResumableUploadProgress
parse_drive_resumable_upload_response upload maximum (status, range, body) =
    if status == 308
    then parse_drive_resumable_upload_offset upload.provider range upload.key.object.size maximum
      >>= (λ offset. ok (incomplete offset))
    else with_body upload status body

-- How many attempts are left, what Drive has committed or how the upload fails, and how many requests
-- there were.
abbrev pub Attempted : Type 0
Attempted = Result StorageError DriveResumableUploadProgress × ℕ × ℕ

abbrev pub probe_answer : Upload → Answer → Result StorageError DriveResumableUploadProgress
probe_answer upload (unbuilt e) = err e
probe_answer upload (unsent e) = err e
probe_answer upload (response status range body) =
    parse_drive_resumable_upload_response upload upload.key.object.size (status, range, body)

-- An error ends the recovery if the request was not built, or if no retry can help.
abbrev pub ends_recovery : Answer → StorageError → Bool
ends_recovery (unbuilt _) e = true
ends_recovery (unsent _) e = not (is_retryable e)
ends_recovery (response _ _ _) e = not (is_retryable e)

-- `recover_drive_resumable_upload`. The first number is how many attempts are left, that is,
-- `max_recovery_attempts` less the source's `recovery_attempts`.
unfoldable pub recover_drive_resumable_upload : Upload → ℕ → ℕ → StorageError → Attempted
recover_drive_resumable_upload upload zero i last_error = (err last_error, 0, i)
recover_drive_resumable_upload upload (suc left) i last_error =
    elim (probe_answer upload (upload.answers i)) [
      | ok progress ↦ (ok progress, left, i + 1)
      | err e ↦
          let rest = recover_drive_resumable_upload upload left (i + 1) e in
          if ends_recovery (upload.answers i) e then (err e, left, i + 1) else rest
    ]

-- The end of what was sent is as far as the answer to a chunk may say that Drive has got.
abbrev pub chunk_answer : Upload → ℕ → Answer → Result StorageError DriveResumableUploadProgress
chunk_answer upload chunk_end (unbuilt e) = err e
chunk_answer upload chunk_end (unsent e) = err e
chunk_answer upload chunk_end (response status range body) =
    parse_drive_resumable_upload_response upload chunk_end (status, range, body)

unfoldable pub send_chunk : Upload → ℕ → ℕ → ℕ → Attempted
send_chunk upload chunk_end left i = elim (chunk_answer upload chunk_end (upload.answers i)) [
  | ok progress ↦ (ok progress, left, i + 1)
  | err e ↦
      if ends_recovery (upload.answers i) e
      then (err e, left, i + 1)
      else recover_drive_resumable_upload upload left (i + 1) e
]

-- A chunk that was sent, with its offset.
abbrev pub Chunk : Type 0
Chunk = ℕ × Bytes

abbrev pub chunk_len : ℕ → ℕ → ℕ
chunk_len total_size offset = min (total_size - offset) chunk_size

abbrev pub Uploaded : Type 0
Uploaded = Option (Result StorageError StoredObject × List Chunk)

abbrev pub after_chunk {ℓ} :
    {A : Type ℓ} → Chunk → Option (A × List Chunk) → Option (A × List Chunk)
after_chunk chunk none = none
after_chunk chunk (some (result, chunks)) = some (result, chunk ∷ chunks)

-- What the loop does with an answer; `continue` is its next round, from an offset, with the attempts
-- that are left and the requests so far.
abbrev pub go_on : Text → Chunk → ℕ → (ℕ → ℕ → ℕ → Uploaded) → Attempted → Uploaded
go_on provider chunk offset continue (err e, left, i) = some (err e, chunk ∷ [])
go_on provider chunk offset continue (ok (complete stored), left, i) = some (ok stored, chunk ∷ [])
go_on provider chunk offset continue (ok (incomplete next), left, i) =
    if ltb next offset
    then some (
      err (
          protocol_error provider
            (codes "Google Drive resumable upload moved its committed offset backwards")),
      chunk ∷ [],
    )
    else if ltb offset next
    then after_chunk chunk (continue next max_recovery_attempts i)
    else if left == 0
    then some (
      err (retryable provider (codes "Google Drive resumable upload made no committed progress")),
      chunk ∷ [],
    )
    else after_chunk chunk (continue offset (left - 1) i)

-- The loop, with fuel for its rounds: `none` is that the fuel ran out.
unfoldable pub upload_from : Upload → ℕ → ℕ → ℕ → ℕ → Uploaded
upload_from upload zero offset left i = none
upload_from upload (suc fuel) offset left i = elim (upload.reads i) [
  | some e ↦ some (err e, [])
  | none ↦
      let n = chunk_len upload.key.object.size offset in
      let chunk : Chunk = (offset, take n (drop offset upload.contents)) in
      go_on upload.provider chunk offset (λ next l j. upload_from upload fuel next l j)
        (send_chunk upload (offset + n) left i)
]

-- `GoogleDriveObjectStore::upload_verified_object`, once the session is open
unfoldable pub upload_verified_object : Upload → ℕ → Uploaded
upload_verified_object upload fuel = upload_from upload fuel 0 max_recovery_attempts 0
