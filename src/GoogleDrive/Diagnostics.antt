-- ===== src/GoogleDrive/Diagnostics.antt =====
-- How src/google_drive/diagnostics.rs and upload.rs classify the errors of Drive. The diagnostic that
-- `drive_error_message` reads from a JSON body is an argument.
use lfs_cloud.Prelude.{
  ℕ, Bool, true, false, ◌||◌, ◌&&◌, Option, none, some, [], ◌∷◌, List, ◌==◌, any, in_range,
  if◌then◌else◌,
}
use lfs_cloud.Prelude.Text.{Text, codes, text_eq}
use lfs_cloud.Errors.{
  StorageError, authentication_required, permission_denied, conflict, quota_exceeded, retryable,
  upstream,
}
use lfs_cloud.Lfs.Oid.{LfsObject}

pub record DriveDiagnostic : Type 0 where
  pub message : Text
  pub reasons : List Text

abbrev pub is_among : List Text → Text → Bool
is_among texts s = any (text_eq s) texts

-- StatusCode::is_server_error
abbrev pub is_server_error : ℕ → Bool
is_server_error status = in_range 500 599 status

abbrev pub authentication_reasons : List Text
authentication_reasons = codes "authError" ∷ codes "insufficientPermissions" ∷ []

abbrev pub permission_reasons : List Text
permission_reasons =
    codes "appNotAuthorizedToFile"
    ∷ codes "domainPolicy"
    ∷ codes "insufficientFilePermissions"
    ∷ codes "teamDriveMembershipRequired"
    ∷ []

abbrev pub quota_reasons : List Text
quota_reasons =
    codes "activeItemCreationLimitExceeded"
    ∷ codes "dailyLimitExceeded"
    ∷ codes "myDriveHierarchyDepthLimitExceeded"
    ∷ codes "numChildrenInNonRootLimitExceeded"
    ∷ codes "quotaExceeded"
    ∷ codes "storageQuotaExceeded"
    ∷ codes "teamDriveFileLimitExceeded"
    ∷ codes "teamDriveHierarchyTooDeep"
    ∷ []

abbrev pub rate_reasons : List Text
rate_reasons =
    codes "rateLimitExceeded"
    ∷ codes "sharingRateLimitExceeded"
    ∷ codes "userRateLimitExceeded"
    ∷ []

unfoldable pub classify_common_drive_error : Text → ℕ → DriveDiagnostic → Option StorageError
classify_common_drive_error provider status d =
    if status == 401 || any (is_among authentication_reasons) d.reasons
    then some (authentication_required provider)
    else if any (is_among permission_reasons) d.reasons
    then some (permission_denied provider d.message)
    else if any (is_among quota_reasons) d.reasons
    then some (quota_exceeded provider d.message)
    else if status == 429 || is_server_error status || any (is_among rate_reasons) d.reasons
    then some (retryable provider d.message)
    else none

pub data DriveUploadPhase : Type 0 where
  initiate transfer : DriveUploadPhase

abbrev pub is_transfer : DriveUploadPhase → Bool
is_transfer initiate = false
is_transfer transfer = true

unfoldable pub parse_drive_upload_error :
    Text → LfsObject → DriveUploadPhase → ℕ → DriveDiagnostic → StorageError
parse_drive_upload_error provider object phase status d =
    elim (classify_common_drive_error provider status d) [
      | some e ↦ e
      | none ↦
          if status == 409
          then conflict provider object.oid.hex
          else if status == 308 || (is_transfer phase && status == 404)
          then retryable provider d.message
          else upstream provider (some status) d.message
    ]
