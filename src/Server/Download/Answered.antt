-- ===== src/Server/Download/Answered.antt =====
-- How download requests of src/server/request.rs are recorded and answered.
use lfs_cloud.Prelude.{ℕ, ◌≤◌, ◌<◌, ◌≡◌, refl, subst, Option, List, Result, ok, err, arith}
use lfs_cloud.Prelude.Text.{Text, codes}
use lfs_cloud.Errors.{ServerError}
use lfs_cloud.Lfs.Oid.{LfsOid, LfsObject}
use lfs_cloud.Server.Batch.Response.{
  Response, git_lfs_json_error_response, refusal-status, git_lfs_download_storage_error_response,
}
use lfs_cloud.Server.Batch.Lookup.{StoredObject}
use lfs_cloud.Server.Batch.Agreement.{error_code-status}
use lfs_cloud.Server.Upload.Refusals.{transfer_request_expected_size}
use lfs_cloud.Server.Download.{
  DownloadServices, recorded_or_error, after_download, download_started, download_authorized,
  download_sized, handle_lfs_download_request,
}

download_error-status : (e : ServerError) → 400 ≤ (git_lfs_download_storage_error_response e).status
download_error-status e = (error_code-status e).2

-- Every step succeeds, and this is the response of the storage.
abbrev pub Served : DownloadServices → LfsOid → Result ServerError ℕ → Response → Type 0
Served services oid size response =
    (n : ℕ) × (attempt : Option ℕ) × (stored : StoredObject) × (size ≡ ok n)
    × (services.authorize ≡ ok tt)
    × (services.start_transfer_attempt ≡ ok attempt)
    × (services.download_object_response (record { oid = oid; size = n }) ≡ ok (stored, response))
    × (services.finish_transfer_attempt ≡ ok tt)

recorded-response :
    (response : Response) (r : Result ServerError (Unit {0}))
    → (recorded_or_error response r).status < 400
    → (r ≡ ok tt) × (response ≡ recorded_or_error response r)
recorded-response response (ok tt) h = (refl, refl)
recorded-response response (err e) h = absurd (omega (arith, download_error-status e))

module _ (services : DownloadServices) (oid : LfsOid) where
  downloaded :
      (n : ℕ) (attempt : Option ℕ) (r : Result ServerError (StoredObject × Response))
      → services.authorize ≡ ok tt
      → services.start_transfer_attempt ≡ ok attempt
      → services.download_object_response (record { oid = oid; size = n }) ≡ r
      → (after_download services attempt r).0.status < 400
      → Served services oid (ok n) (after_download services attempt r).0
  downloaded n attempt (ok (stored, response)) a s d h =
      let (f, same) = recorded-response response services.finish_transfer_attempt h in
      let object : LfsObject = record { oid = oid; size = n } in
      let d' = subst (λ q. services.download_object_response object ≡ ok (stored, q)) same d in
      (n, attempt, stored, refl, a, s, d', f)
  downloaded n attempt (err e) a s d h = absurd (omega (arith, download_error-status e))

  download_started-Served :
      (n : ℕ) (r : Result ServerError (Option ℕ))
      → services.authorize ≡ ok tt
      → services.start_transfer_attempt ≡ r
      → (download_started services (record { oid = oid; size = n }) r).0.status < 400
      → Served services oid (ok n) (download_started services (record { oid = oid; size = n }) r).0
  download_started-Served n (err e) a s h = absurd (omega (arith, download_error-status e))
  download_started-Served n (ok attempt) a s h = downloaded n attempt _ a s refl h

  download_authorized-Served :
      (n : ℕ) (r : Result ServerError (Unit {0}))
      → services.authorize ≡ r
      → (download_authorized services (record { oid = oid; size = n }) r).0.status < 400
      → Served services oid
          (ok n)
          (download_authorized services (record { oid = oid; size = n }) r).0
  download_authorized-Served n (err e) a h = absurd (omega (arith, refusal-status e))
  download_authorized-Served n (ok tt) a h =
      download_started-Served n services.start_transfer_attempt a refl h

  download_sized-Served :
      (r : Result ServerError ℕ)
      → (download_sized services oid r).0.status < 400
      → Served services oid r (download_sized services oid r).0
  unfolding git_lfs_json_error_response
  download_sized-Served (err e) h = absurd (omega arith)
  download_sized-Served (ok n) h = download_authorized-Served n services.authorize refl h

-- A download is answered without an error only if its size is given, it is authorized, its start and
-- its success are recorded, and the storage has the object: then the response is the storage's.
pub handle_download-Served :
    (debug : Text → Text) (services : DownloadServices) (oid : LfsOid)
    (query : Option (List (Text × Text)))
    → (handle_lfs_download_request debug services oid query).0.status < 400
    → Served services oid
        (transfer_request_expected_size debug query (codes "download"))
        (handle_lfs_download_request debug services oid query).0
unfolding handle_lfs_download_request
handle_download-Served debug services oid query h =
    download_sized-Served services oid
      (transfer_request_expected_size debug query (codes "download")) h
