-- ===== src/GoogleDrive.antt =====
-- src/google_drive: the storage of objects in Google Drive.
pub mod ObjectKey
pub mod Diagnostics
pub mod Upload
