-- ===== src/Server/Staging/Body.antt =====
-- The loop of `stage_upload_request_body_with_lease` (src/server/staging.rs) that reads the request
-- body, and the checks of what it has read. The body is the list of what the stream yields: a chunk
-- with what writing it to the staging file gives, a read that is idle for too long, or a failure.
use lfs_cloud.Prelude.{
  ℕ, ◌+◌, ◌≤◌, ◌<◌, ◌≡◌, ◌↔◌, refl, Bool, true, false, not, ◌||◌, Option, none, some, [], ◌∷◌, ◌++◌,
  List, ◌==◌, ltb, leb, if◌then◌else◌, unwrap_or, Result, ok, err, length, subst, sym, ◌∙◌,
  length-append, append_assoc, append-nil, arith,
}
use lfs_cloud.Prelude.Text.{Text, codes, text_eq, text_eq_iff}
use lfs_cloud.Prelude.Decimal.{u64_bound}
use lfs_cloud.Errors.{integrity_mismatch, retryable}
use lfs_cloud.Lfs.Oid.{LfsOid}
use lfs_cloud.Server.Staging.Coordinator.{
  UploadStagingError, payload_too_large, insufficient_temp_space, timed_out, storage,
}

abbrev pub Bytes : Type 0
Bytes = List ℕ

pub data ErrorKind : Type 0 where
  storage_full quota_exceeded other : ErrorKind

-- `std::io::Error`
pub record IoError : Type 0 where
  pub kind : ErrorKind
  pub raw_os_error : Option ℕ
  pub message : Text

abbrev is_exhausted_kind : ErrorKind → Bool
is_exhausted_kind storage_full = true
is_exhausted_kind quota_exceeded = true
is_exhausted_kind other = false

abbrev is_exhausted_code : Option ℕ → Bool
is_exhausted_code none = false
is_exhausted_code (some code) = code == 28 || code == 122 || code == 69

unfoldable pub is_temp_space_exhausted : IoError → Bool
is_temp_space_exhausted e = is_exhausted_kind e.kind || is_exhausted_code e.raw_os_error

abbrev pub provider : Text
provider = codes "lfscloud"

unfoldable pub upload_staging_file_io_error : IoError → Text → UploadStagingError
upload_staging_file_io_error source action =
    if is_temp_space_exhausted source
    then insufficient_temp_space none none
    else storage (
        retryable provider
          (codes "upload staging file could not be " ++ action ++ codes ": " ++ source.message))

pub data BodyEvent : Type 0 where
  chunk : Bytes → Option IoError → BodyEvent
  idle : BodyEvent
  broken : Text → BodyEvent

-- The rest of the loop after a chunk that is not too large: `file.write_all`.
abbrev pub written :
    Option IoError → Result UploadStagingError Bytes → Result UploadStagingError Bytes
written none rest = rest
written (some source) rest = err (upload_staging_file_io_error source (codes "written"))

-- `contents` is what was written so far, and `actual_size` its length.
unfoldable pub read_body : ℕ → ℕ → Bytes → List BodyEvent → Result UploadStagingError Bytes
read_body max_upload_bytes actual_size contents [] = ok contents
read_body max_upload_bytes actual_size contents (idle ∷ events) = err timed_out
read_body max_upload_bytes actual_size contents (broken source ∷ events) =
    err (storage (retryable provider (codes "upload request body could not be read: " ++ source)))
read_body max_upload_bytes actual_size contents (chunk bytes outcome ∷ events) =
    let next_size = actual_size + length bytes in
    let rest = read_body max_upload_bytes next_size (contents ++ bytes) events in
    if leb u64_bound next_size
    then err payload_too_large
    else if ltb max_upload_bytes next_size
    then err payload_too_large
    else written outcome rest

abbrev pub mismatched_size : Option ℕ → ℕ → Bool
mismatched_size none actual = false
mismatched_size (some expected) actual = not (expected == actual)

-- The two comparisons after the loop. `digest` is the SHA-256 of the contents in hexadecimal.
unfoldable pub verify_staged :
    (Bytes → Text) → LfsOid → Option ℕ → Bytes → Result UploadStagingError Bytes
verify_staged digest expected_oid expected_size contents =
    let actual_size = length contents in
    let actual_oid = digest contents in
    let mismatch = err (
      storage (
        integrity_mismatch expected_oid.hex (unwrap_or expected_size actual_size) actual_oid
          actual_size)) in
    if mismatched_size expected_size actual_size
    then mismatch
    else if not (text_eq actual_oid expected_oid.hex)
    then mismatch
    else ok contents

-- upload_staging_preflight_size
unfoldable pub upload_staging_preflight_size : Option ℕ → ℕ → Result UploadStagingError ℕ
upload_staging_preflight_size expected_size max_upload_bytes =
    let size = unwrap_or expected_size max_upload_bytes in
    if ltb max_upload_bytes size then err payload_too_large else ok size

-- The stream yields these bytes and ends, and every write succeeds.
pub data Yields : List BodyEvent → Bytes → Type 0 where
  end : Yields [] []
  more :
      {events : List BodyEvent} {rest : Bytes} (bytes : Bytes)
      → Yields events rest
      → Yields (chunk bytes none ∷ events) (bytes ++ rest)

read_body-ok :
    (max size : ℕ) (contents rest : Bytes) (events : List BodyEvent)
    → size ≡ length contents
    → length contents + length rest ≤ max
    → max < u64_bound
    → Yields events rest
    → read_body max size contents events ≡ ok (contents ++ rest)
unfolding read_body
read_body-ok max size contents rest events s fits small end = rw append-nil
read_body-ok max size contents rest events s fits small (more {events = es} {rest = r} bytes y) =
    let ih =
      read_body-ok max (size + length bytes) (contents ++ bytes) r es
        (omega (arith, length-append contents bytes))
        (omega (arith, length-append contents bytes, length-append bytes r)) small y in
    ground (arith, ih, append_assoc contents bytes r, length-append bytes r)

read_body_sound :
    (max size : ℕ) (contents result : Bytes) (events : List BodyEvent)
    → size ≡ length contents
    → size ≤ max
    → read_body max size contents events ≡ ok result
    → (rest : Bytes) × Yields events rest × (result ≡ contents ++ rest) × (length result ≤ max)
unfolding read_body
read_body_sound max size contents result [] s fits h =
    ([], end, rw append-nil (ground arith), ground arith)
read_body_sound max size contents result (idle ∷ events) s fits h = cc
read_body_sound max size contents result (broken m ∷ events) s fits h = cc
read_body_sound max size contents result (chunk bytes (some e) ∷ events) s fits h =
    absurd (ground arith)
read_body_sound max size contents result (chunk bytes none ∷ events) s fits h =
    let (rest, y, e, b) =
      read_body_sound max (size + length bytes) (contents ++ bytes) result events
        (omega (arith, length-append contents bytes)) (ground arith) (ground arith) in
    (bytes ++ rest, more bytes y, e ∙ append_assoc contents bytes rest, b)

-- The loop succeeds exactly if the stream yields bytes that stay within the limit, and then it has
-- written just those bytes.
pub read_body_iff :
    (max : ℕ) (events : List BodyEvent) (result : Bytes)
    → max < u64_bound
    → (read_body max 0 [] events ≡ ok result) ↔ (Yields events result × (length result ≤ max))
read_body_iff max events result small = (
  λ h.
      let (rest, y, e, b) = read_body_sound max 0 [] result events refl (omega arith) h in
      (subst (Yields events) (sym e) y, b),
  λ h. read_body-ok max 0 [] result events refl (omega (arith, h.1)) small h.0,
)

-- Contents pass the comparisons exactly if their digest is the identifier and their size the
-- expected one, where one is expected; they are handed on as they are.
pub verify_staged_iff :
    (digest : Bytes → Text) (oid : LfsOid) (expected : Option ℕ) (contents result : Bytes)
    → (verify_staged digest oid expected contents ≡ ok result) ↔ (
        (result ≡ contents)
        × (digest contents ≡ oid.hex)
        × (unwrap_or expected (length contents) ≡ length contents))
unfolding verify_staged
verify_staged_iff digest oid expected contents result = (
  λ h. ground (arith, text_eq_iff (digest contents) oid.hex),
  λ h. ground (arith, text_eq_iff (digest contents) oid.hex),
)
