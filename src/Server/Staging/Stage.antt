-- ===== src/Server/Staging/Stage.antt =====
-- `stage_upload_request_body_with_lease` of src/server/staging.rs as a whole: from the lease to the
-- verified staging file. What the operating system and the stream answer is the environment.
use lfs_cloud.Prelude.{
  ℕ, ◌≤◌, ◌<◌, ◌≡◌, refl, Bool, Option, none, some, [], ◌∷◌, ◌++◌, List, Result, ok, err,
  bind-eq-ok, ◌>>=◌, ◌>>◌, guard, length, arith, Result-cases, inl, inr, unwrap_or, sym, subst,
}
use lfs_cloud.Prelude.Text.{Text, codes}
use lfs_cloud.Prelude.Decimal.{u64_bound}
use lfs_cloud.Errors.{StorageError, retryable, staged_file_read}
use lfs_cloud.Lfs.Oid.{LfsOid}
use lfs_cloud.Server.Staging.Coordinator.{
  UploadStagingError, storage, Coordinator, Lease, reserve, drop_lease,
}
use lfs_cloud.Server.Staging.World.{World, after_declare}
use lfs_cloud.Server.Staging.Invariant.{IsConsistent, IsPicked, IsPicked-head}
use lfs_cloud.Server.Staging.Releasing.{drop_lease-ok}
use lfs_cloud.Server.Staging.Reserving.{reserve-ok}
use lfs_cloud.Server.Staging.Body.{
  Bytes, IoError, BodyEvent, provider, upload_staging_file_io_error, read_body, verify_staged,
  upload_staging_preflight_size, Yields, read_body_iff, verify_staged_iff,
}

-- What `fs4::available_space` gives on its blocking task.
pub data Space : Type 0 where
  available : ℕ → Space
  not_completed not_inspected : Text → Space

pub record Environment : Type 0 where
  pub temp_file_error : Option Text
  pub path : Text
  pub has_parent : Bool
  pub space : Space
  pub reopen_error : Option Text
  pub body : List BodyEvent
  pub flush_error : Option IoError

-- `UploadStagingGuardrails`; the idle timeout is what makes the stream yield `idle`.
pub record Guardrails : Type 0 where
  pub max_upload_bytes : ℕ
  pub min_free_bytes : ℕ

pub record StagedUpload : Type 0 where
  pub lease : Lease
  pub contents : Bytes

abbrev pub unless : Option Text → (Text → StorageError) → Result UploadStagingError (Unit {0})
unless none e = ok tt
unless (some source) e = err (storage (e source))

abbrev space_or_error : Space → Result UploadStagingError ℕ
space_or_error (available n) = ok n
space_or_error (not_completed source) = err (
    storage (
      retryable provider
        (codes "upload staging directory free-space check did not complete: " ++ source)))
space_or_error (not_inspected source) = err (
    storage (
      retryable provider
        (codes "upload staging directory free space could not be inspected: " ++ source)))

-- Up to the reservation: the size to reserve, and the free space.
unfoldable pub before_reserve :
    Environment → Option ℕ → Guardrails → Result UploadStagingError (ℕ × ℕ)
before_reserve env expected_size g = do
  size ← upload_staging_preflight_size expected_size g.max_upload_bytes
  unless env.temp_file_error
      λ source. retryable provider (codes "upload staging file could not be created: " ++ source)
  guard env.has_parent (
      storage (
        retryable provider
          (codes "upload staging file " ++ env.path ++ codes " did not have a parent directory")))
  free ← space_or_error env.space
  ok (size, free)

abbrev flushed : Option IoError → Result UploadStagingError (Unit {0})
flushed none = ok tt
flushed (some source) = err (upload_staging_file_io_error source (codes "flushed"))

some_eq {ℓ} : {A : Type ℓ} {a b : A} → some a ≡ some b → a ≡ b
some_eq h = cc

module _ (digest : Bytes → Text) where
  -- After the reservation.
  unfoldable pub after_reserve :
      Environment → LfsOid → Option ℕ → Guardrails → Result UploadStagingError Bytes
  after_reserve env expected_oid expected_size g = do
    unless env.reopen_error (staged_file_read provider env.path)
    contents ← read_body g.max_upload_bytes 0 [] env.body
    flushed env.flush_error
    verify_staged digest expected_oid expected_size contents

  abbrev refused :
      UploadStagingError
      → Option Coordinator
      → Option (Result UploadStagingError StagedUpload × Coordinator)
  refused e none = none
  refused e (some c) = some (err e, c)

  -- An error drops the lease, since the function owns it.
  abbrev settle :
      Result UploadStagingError Bytes
      → Lease
      → Coordinator
      → Option (Result UploadStagingError StagedUpload × Coordinator)
  settle (ok contents) lease c = some (ok (record { lease = lease; contents = contents }), c)
  settle (err e) lease c = refused e (drop_lease c lease)

  abbrev when_reserved :
      Result UploadStagingError Bytes
      → Option (Result UploadStagingError Lease × Coordinator)
      → Option (Result UploadStagingError StagedUpload × Coordinator)
  when_reserved r none = none
  when_reserved r (some (err e, c)) = some (err e, c)
  when_reserved r (some (ok lease, c)) = settle r lease c

  abbrev staged :
      Result UploadStagingError (ℕ × ℕ)
      → Result UploadStagingError Bytes
      → Guardrails
      → Coordinator
      → Lease
      → Option (Result UploadStagingError StagedUpload × Coordinator)
  staged (err e) r g c lease = refused e (drop_lease c lease)
  staged (ok (size, free)) r g c lease =
      when_reserved r (reserve c lease size g.min_free_bytes free)

  unfoldable pub stage_upload_request_body_with_lease :
      Environment
      → LfsOid
      → Option ℕ
      → Guardrails
      → Coordinator
      → Lease
      → Option (Result UploadStagingError StagedUpload × Coordinator)
  stage_upload_request_body_with_lease env expected_oid expected_size g c lease =
      staged (before_reserve env expected_size g) (after_reserve env expected_oid expected_size g) g
        c lease

  abbrev pub held : Result UploadStagingError StagedUpload → List Lease → List Lease
  held (ok upload) rest = upload.lease ∷ rest
  held (err e) rest = rest

  module _ (gl pl : ℕ) (g : Guardrails) where
    settle-ok :
        (r : Result UploadStagingError Bytes) (lease : Lease) (c : Coordinator) (rest : List Lease)
        → IsConsistent gl pl g.min_free_bytes (record { coordinator = c; leases = lease ∷ rest })
        → (x : Result UploadStagingError StagedUpload) × (c' : Coordinator) × (settle r lease c
            ≡ some (x, c'))
          × IsConsistent gl pl g.min_free_bytes (record { coordinator = c'; leases = held x rest })
    settle-ok (ok contents) lease c rest h = (_, c, refl, h)
    settle-ok (err e) lease c rest h =
        let (c', d, k) =
          drop_lease-ok gl pl g.min_free_bytes (record { coordinator = c; leases = lease ∷ rest })
            lease rest h (IsPicked-head lease rest) in
        (err e, c', rw d, k)

    when_reserved-ok :
        (r : Result UploadStagingError Bytes)
        (o : Option (Result UploadStagingError Lease × Coordinator)) (rest : List Lease) (w : World)
        → after_declare rest o ≡ some w
        → IsConsistent gl pl g.min_free_bytes w
        → (x : Result UploadStagingError StagedUpload) × (c : Coordinator) × (when_reserved r o
            ≡ some (x, c))
          × IsConsistent gl pl g.min_free_bytes (record { coordinator = c; leases = held x rest })
    when_reserved-ok r none rest w e h = cc
    when_reserved-ok r (some (err x, c)) rest w e h =
        (err x, c, refl, subst (IsConsistent gl pl g.min_free_bytes) (sym (some_eq e)) h)
    when_reserved-ok r (some (ok l, c)) rest w e h =
        settle-ok r l c rest (subst (IsConsistent gl pl g.min_free_bytes) (sym (some_eq e)) h)

    -- Whatever the operating system and the client do, staging never panics the coordinator: on
    -- success the upload holds its lease, and on every error the lease is given back.
    pub stage-IsConsistent :
        (env : Environment) (oid : LfsOid) (expected : Option ℕ) (w : World) (lease : Lease)
        (rest : List Lease)
        → IsConsistent gl pl g.min_free_bytes w
        → IsPicked w.leases lease rest
        → (x : Result UploadStagingError StagedUpload) × (c : Coordinator)
          × (stage_upload_request_body_with_lease env oid expected g w.coordinator lease
              ≡ some (x, c))
          × IsConsistent gl pl g.min_free_bytes (record { coordinator = c; leases = held x rest })
    unfolding stage_upload_request_body_with_lease
    stage-IsConsistent env oid expected w lease rest h k =
        elim (Result-cases (before_reserve env expected g)) [
          | inl ((size, free), e) ↦
              let (w', d, ok_w) = reserve-ok gl pl g.min_free_bytes w lease rest size free h k in
              let (x, c, f, ok_c) =
                when_reserved-ok (after_reserve env oid expected g)
                  (reserve w.coordinator lease size g.min_free_bytes free) rest w' d ok_w in
              (x, c, rw e f, ok_c)
          | inr (x, e) ↦
              let (c, d, ok_c) = drop_lease-ok gl pl g.min_free_bytes w lease rest h k in
              (err x, c, rw (e, d), ok_c)
        ]

  settle-contents :
      (r : Result UploadStagingError Bytes) (lease : Lease) (c c' : Coordinator) (u : StagedUpload)
      → settle r lease c ≡ some (ok u, c')
      → r ≡ ok u.contents
  settle-contents r lease c c' u h = ground arith

  staged-contents :
      (b : Result UploadStagingError (ℕ × ℕ)) (r : Result UploadStagingError Bytes) (g : Guardrails)
      (c c' : Coordinator) (lease : Lease) (u : StagedUpload)
      → staged b r g c lease ≡ some (ok u, c')
      → r ≡ ok u.contents
  staged-contents b r g c c' lease u h = ground (arith)

  -- What is staged is what the client sent: the stream ended without a failure, its bytes are within
  -- the limit, they have the declared size if there is one, and their digest is the identifier.
  pub staged_contents :
      (env : Environment) (oid : LfsOid) (expected : Option ℕ) (g : Guardrails) (c c' : Coordinator)
      (lease : Lease) (upload : StagedUpload)
      → g.max_upload_bytes < u64_bound
      → stage_upload_request_body_with_lease env oid expected g c lease ≡ some (ok upload, c')
      → Yields env.body upload.contents
        × (length upload.contents ≤ g.max_upload_bytes)
        × (unwrap_or expected (length upload.contents) ≡ length upload.contents)
        × (digest upload.contents ≡ oid.hex)
  unfolding stage_upload_request_body_with_lease after_reserve
  staged_contents env oid expected g c c' lease upload small h =
      let done =
        staged-contents (before_reserve env expected g) (after_reserve env oid expected g) g c c'
          lease upload h in
      let (_, _, h1) =
        bind-eq-ok (unless env.reopen_error (staged_file_read provider env.path)) _ done in
      let (contents, was_read, h2) = bind-eq-ok (read_body g.max_upload_bytes 0 [] env.body) _ h1 in
      let (_, _, h3) = bind-eq-ok (flushed env.flush_error) _ h2 in
      let (same, is_oid, is_size) =
        (verify_staged_iff digest oid expected contents upload.contents).0 h3 in
      let (yields, fits) = (read_body_iff g.max_upload_bytes env.body contents small).0 was_read in
      (rw same yields, rw same fits, rw same is_size, rw same is_oid)
