-- ===== src/Server/Staging.antt =====
-- src/server/staging.rs: admission, disk reservations and reading of uploads.
pub mod Coordinator
pub mod Slots
pub mod World
pub mod Invariant
pub mod Acquiring
pub mod Releasing
pub mod Reserving
pub mod Freezing
pub mod Consistency
pub mod Limits
pub mod Body
pub mod Stage
pub mod Interleaving
mod Tests
