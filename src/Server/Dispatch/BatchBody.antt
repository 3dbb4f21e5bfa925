-- ===== src/Server/Dispatch/BatchBody.antt =====
-- `read_batch_request_body` of src/server/request.rs, and what is done with the body it has read.
use lfs_cloud.Prelude.{
  ℕ, ◌+◌, ◌≤◌, ◌<◌, ◌≡◌, ◌↔◌, sym, subst, ◌∙◌, Bool, false, Option, none, some, [], ◌∷◌, ◌++◌, List,
  leb, ltb, if◌then◌else◌, Result, ok, err, length, length-append, append_assoc, append-nil,
  Bool-cases, inl, inr, arith,
}
use lfs_cloud.Prelude.Text.{Text, codes}
use lfs_cloud.Prelude.Decimal.{u64_bound}
use lfs_cloud.Server.Staging.Body.{Bytes}
use lfs_cloud.Server.Batch.Response.{Response, git_lfs_json_error_response}

pub data BatchBodyReadError : Type 0 where
  payload_too_large timed_out : BatchBodyReadError
  unreadable : Text → BatchBodyReadError

-- What the loop sees: a chunk, one of the two deadlines, or a failure of the stream.
pub data Event : Type 0 where
  chunk : Bytes → Event
  deadline : Event
  broken : Text → Event

unfoldable pub extend_body : ℕ → Bytes → List Event → Result BatchBodyReadError Bytes
extend_body max_bytes body [] = ok body
extend_body max_bytes body (deadline ∷ events) = err timed_out
extend_body max_bytes body (broken source ∷ events) = err (unreadable source)
extend_body max_bytes body (chunk bytes ∷ events) =
    let rest = extend_body max_bytes (body ++ bytes) events in
    let next_length = length body + length bytes in
    if leb u64_bound next_length
    then err payload_too_large
    else if ltb max_bytes next_length
    then err payload_too_large
    else rest

abbrev pub exceeds : ℕ → Option ℕ → Bool
exceeds max_bytes none = false
exceeds max_bytes (some length) = ltb max_bytes length

-- The declared length is the header `Content-Length`, if it is a number.
unfoldable pub read_batch_request_body : ℕ → Option ℕ → List Event → Result BatchBodyReadError Bytes
read_batch_request_body max_bytes declared events =
    if exceeds max_bytes declared then err payload_too_large else extend_body max_bytes [] events

-- The rest of `handle_lfs_batch_request`: `parse` is `parse_lfs_batch_request_json`, and `handle`
-- the handler of a parsed request, which may panic.
unfoldable pub after_body :
    {Parsed : Type 0}
    → (Bytes → Option Parsed)
    → (Parsed → Option Response)
    → Result BatchBodyReadError Bytes
    → Option Response
after_body parse handle (ok body) = elim (parse body) [
  | some request ↦ handle request
  | none ↦ some (git_lfs_json_error_response 400 (codes "Invalid Git LFS batch request"))
]
after_body parse handle (err payload_too_large) =
    some
      (git_lfs_json_error_response 413 (codes "Git LFS request body exceeds the configured limit"))
after_body parse handle (err timed_out) = some (
    git_lfs_json_error_response 408
      (codes "Git LFS batch request timed out while reading the request body"))
after_body parse handle (err (unreadable _)) =
    some (git_lfs_json_error_response 400 (codes "Git LFS request body could not be read"))

-- The stream yields these bytes before any deadline, and ends.
pub data Yields : List Event → Bytes → Type 0 where
  end : Yields [] []
  more :
      {events : List Event} {rest : Bytes} (bytes : Bytes)
      → Yields events rest
      → Yields (chunk bytes ∷ events) (bytes ++ rest)

extend_body-ok :
    (max : ℕ) (body rest : Bytes) (events : List Event)
    → length body + length rest ≤ max
    → max < u64_bound
    → Yields events rest
    → extend_body max body events ≡ ok (body ++ rest)
unfolding extend_body
extend_body-ok max body rest events fits small end = rw append-nil
extend_body-ok max body rest events fits small (more {events = es} {rest = r} bytes y) = ground (
  arith,
  append_assoc body bytes r,
  length-append bytes r,
  length-append body bytes,
  extend_body-ok max (body ++ bytes) r es
      (omega (arith, length-append body bytes, length-append bytes r)) small y,
)

extend_body_sound :
    (max : ℕ) (body result : Bytes) (events : List Event)
    → length body ≤ max
    → extend_body max body events ≡ ok result
    → (rest : Bytes) × Yields events rest × (result ≡ body ++ rest) × (length result ≤ max)
unfolding extend_body
extend_body_sound max body result [] fits h = ([], end, rw append-nil (ground arith), ground arith)
extend_body_sound max body result (deadline ∷ events) fits h = cc
extend_body_sound max body result (broken m ∷ events) fits h = cc
extend_body_sound max body result (chunk bytes ∷ events) fits h =
    let (rest, y, e, b) =
      extend_body_sound max (body ++ bytes) result events (ground (arith, length-append body bytes))
        (ground arith) in
    (bytes ++ rest, more bytes y, e ∙ append_assoc body bytes rest, b)

-- A batch body is read exactly if no declared length exceeds the limit and the stream yields bytes
-- within it before the deadlines, and it is just those bytes.
pub read_batch_request_body_iff :
    (max : ℕ) (declared : Option ℕ) (events : List Event) (result : Bytes)
    → max < u64_bound
    → (read_batch_request_body max declared events ≡ ok result)
      ↔ ((exceeds max declared ≡ false) × Yields events result × (length result ≤ max))
unfolding read_batch_request_body
read_batch_request_body_iff max declared events result small =
    elim (Bool-cases (exceeds max declared)) [
      | inl e ↦ (λ h. absurd (ground arith), λ h. absurd cc)
      | inr e ↦ (
        λ h.
            let (rest, y, f, b) =
              extend_body_sound max [] result events (omega arith) (ground arith) in
            (e, subst (Yields events) (sym f) y, b),
        λ h. rw e (extend_body-ok max [] result events (omega (arith, h.2)) small h.1),
      )
    ]
