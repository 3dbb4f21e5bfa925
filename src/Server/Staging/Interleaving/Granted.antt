-- ===== src/Server/Staging/Interleaving/Granted.antt =====
-- When `try_acquire` of src/server/staging.rs is granted its permits, with other uploads between its
-- steps.
use lfs_cloud.Server.Staging.Coordinator.{Coordinator}
