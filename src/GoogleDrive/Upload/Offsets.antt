-- ===== src/GoogleDrive/Upload/Offsets.antt =====
-- Which offsets src/google_drive/upload.rs takes from Drive, and how many attempts it has left then.
use lfs_cloud.Prelude.{
  ℕ, zero, suc, ◌+◌, ◌≤◌, ◌<◌, ◌≡◌, ◌⊎◌, inl, inr, ◌||◌, some, ◌==◌, Result, ok, err, ok_or,
  ok_or-eq-ok, bind-eq-ok, Bool-cases, Result-cases, arith,
}
use lfs_cloud.Prelude.Text.{Text, codes, trim, strip_prefix}
use lfs_cloud.Prelude.Decimal.{from_str}
use lfs_cloud.Errors.{StorageError}
use lfs_cloud.Server.Batch.Lookup.{StoredObject}
use lfs_cloud.GoogleDrive.Upload.{
  RangeHeader, missing, not_text, text, Answer, unbuilt, unsent, response, Upload,
  DriveResumableUploadProgress, complete, incomplete, protocol_error, checked_offset,
  parse_drive_resumable_upload_offset, parse_drive_resumable_upload_response, with_body,
  parse_drive_upload_success, Attempted, probe_answer, ends_recovery,
  recover_drive_resumable_upload, chunk_answer, send_chunk,
}
use lfs_cloud.GoogleDrive.Upload.Verification.{
  GoogleDriveObjectFile, verify_drive_object_file, parsed,
}

-- An offset from which there is something left, or the start.
abbrev pub IsOffset : ℕ → ℕ → Type 0
IsOffset total n = (n ≡ 0) ⊎ (n < total)

-- What Drive says of the file that it has stored.
pub record IsStored (upload : Upload) (stored : StoredObject) : Type 0 where
  pub status : ℕ
  pub body : Text
  pub file : GoogleDriveObjectFile
  pub read : upload.file_from_json body ≡ some file
  pub accepted :
      verify_drive_object_file upload.provider upload.key upload.expected_properties status file
      ≡ ok stored

abbrev pub IsProgress : Upload → DriveResumableUploadProgress → Type 0
IsProgress upload (complete stored) = IsStored upload stored
IsProgress upload (incomplete n) = IsOffset upload.key.object.size n

checked_offset-IsOffset :
    (provider : Text) (total maximum last n : ℕ)
    → checked_offset provider total maximum last ≡ ok n
    → IsOffset total n
checked_offset-IsOffset provider total maximum last n h = inr (ground arith)

parse_drive_resumable_upload_offset-IsOffset :
    (provider : Text) (range : RangeHeader) (total maximum n : ℕ)
    → parse_drive_resumable_upload_offset provider range total maximum ≡ ok n
    → IsOffset total n
unfolding parse_drive_resumable_upload_offset
parse_drive_resumable_upload_offset-IsOffset provider missing total maximum n h = inl cc
parse_drive_resumable_upload_offset-IsOffset provider not_text total maximum n h = absurd cc
parse_drive_resumable_upload_offset-IsOffset provider (text range) total maximum n h =
    let invalid =
      protocol_error provider
        (codes "Google Drive resumable upload returned an invalid Range header") in
    let (last_byte, _, h') =
      bind-eq-ok (ok_or (strip_prefix (codes "bytes=0-") (trim range)) invalid) _ h in
    let (last, _, checked) = bind-eq-ok (parsed invalid (from_str last_byte)) _ h' in
    checked_offset-IsOffset provider total maximum last n checked

module _ (upload : Upload) where
  abbrev pub Progressed : Result StorageError DriveResumableUploadProgress → Type 0
  Progressed (err e) = Unit
  Progressed (ok progress) = IsProgress upload progress

  parsed-IsStored :
      (status : ℕ) (body : Text) (stored : StoredObject)
      → parse_drive_upload_success upload status body ≡ ok stored
      → IsStored upload stored
  unfolding parse_drive_upload_success
  parsed-IsStored status body stored h =
      let (file, f, v) = bind-eq-ok (ok_or (upload.file_from_json body) _) _ h in
      record { status = status; body = body; file = file; read = ok_or-eq-ok _ _ f; accepted = v }

  body-Progressed :
      (status : ℕ) (body : Result StorageError Text) → Progressed (with_body upload status body)
  body-Progressed status (err e) = tt
  body-Progressed status (ok body) = elim (Bool-cases (status == 200 || status == 201)) [
    | inr e ↦ rw e tt
    | inl e ↦ elim (Result-cases (parse_drive_upload_success upload status body)) [
      | inl (stored, f) ↦ rw (e, f) (parsed-IsStored status body stored f)
      | inr (failure, f) ↦ rw (e, f) tt
    ]
  ]

  response-Progressed :
      (maximum status : ℕ) (range : RangeHeader) (body : Result StorageError Text)
      → Progressed (parse_drive_resumable_upload_response upload maximum (status, range, body))
  unfolding parse_drive_resumable_upload_response
  response-Progressed maximum status range body =
      let total = upload.key.object.size in
      elim (Bool-cases (status == 308)) [
        | inr e ↦ rw e (body-Progressed status body)
        | inl e ↦
            elim (Result-cases
              (parse_drive_resumable_upload_offset upload.provider range total maximum)) [
                | inl (n, f) ↦
                    rw (e, f)
                      (parse_drive_resumable_upload_offset-IsOffset upload.provider range total
                        maximum n f)
                | inr (failure, f) ↦ rw (e, f) tt
              ]
      ]

  chunk-Progressed :
      (chunk_end : ℕ) (answer : Answer) → Progressed (chunk_answer upload chunk_end answer)
  chunk-Progressed chunk_end (unbuilt e) = tt
  chunk-Progressed chunk_end (unsent e) = tt
  chunk-Progressed chunk_end (response status range body) =
      response-Progressed chunk_end status range body

  -- Its result is progress, with at most that many attempts left.
  abbrev pub Within : ℕ → Attempted → Type 0
  Within left a = Progressed a.0 × (a.1 ≤ left)

  probe-Progressed : (answer : Answer) → Progressed (probe_answer upload answer)
  probe-Progressed (unbuilt e) = tt
  probe-Progressed (unsent e) = tt
  probe-Progressed (response status range body) =
      response-Progressed upload.key.object.size status range body

  recover-Within :
      (left i : ℕ) (last_error : StorageError)
      → Within left (recover_drive_resumable_upload upload left i last_error)
  unfolding recover_drive_resumable_upload
  recover-Within zero i last_error = (tt, omega arith)
  recover-Within (suc left) i last_error =
      elim (Result-cases (probe_answer upload (upload.answers i))) [
        | inl (progress, e) ↦
            let p = probe-Progressed (upload.answers i) in
            let p' : IsProgress upload progress = rw e at p in
            rw (e, recover_drive_resumable_upload) (p', omega arith)
        | inr (failure, e) ↦ elim (Bool-cases (ends_recovery (upload.answers i) failure)) [
          | inl f ↦ rw (e, f, recover_drive_resumable_upload) (tt, omega arith)
          | inr f ↦
              let (p, l) = recover-Within left (i + 1) failure in
              rw (e, f, recover_drive_resumable_upload) (p, omega (arith, l))
        ]
      ]

  pub send_chunk-Within : (chunk_end left i : ℕ) → Within left (send_chunk upload chunk_end left i)
  unfolding send_chunk
  send_chunk-Within chunk_end left i =
      elim (Result-cases (chunk_answer upload chunk_end (upload.answers i))) [
        | inl (progress, e) ↦
            let p = chunk-Progressed chunk_end (upload.answers i) in
            let p' : IsProgress upload progress = rw e at p in rw (e, send_chunk) (p', omega arith)
        | inr (failure, e) ↦ elim (Bool-cases (ends_recovery (upload.answers i) failure)) [
          | inl f ↦ rw (e, f, send_chunk) (tt, omega arith)
          | inr f ↦ rw (e, f, send_chunk) (recover-Within left (i + 1) failure)
        ]
      ]
