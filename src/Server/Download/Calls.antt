-- ===== src/Server/Download/Calls.antt =====
-- What a download request of src/server/request.rs records in the database.
use lfs_cloud.Prelude.{ℕ, ◌≤◌, ◌≡◌, ◌⊎◌, Option, List, ltb, if◌then◌else◌, Result, ok}
use lfs_cloud.Prelude.Text.{Text}
use lfs_cloud.Errors.{ServerError}
use lfs_cloud.Server.Batch.Response.{Response}
use lfs_cloud.Server.Upload.{Call}
use lfs_cloud.Server.Upload.Calls.{starts, finishes, recorded}

-- One attempt is started at most, only with an authorization, and finished once if recorded.
unfoldable pub IsRecorded :
    Result ServerError (Unit {0}) → Result ServerError (Option ℕ) → List Call → Type 0
IsRecorded authorization attempt calls =
    (starts calls ≤ 1)
    × (finishes calls ≡ (if ltb 0 (starts calls) then recorded attempt else 0))
    × ((starts calls ≡ 0) ⊎ (authorization ≡ ok tt))
