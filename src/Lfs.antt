-- ===== src/Lfs.antt =====
-- src/lfs.rs: object identifiers, pointer files and batch payloads of Git LFS.
pub mod Error
pub mod Oid
pub mod Pointer
pub mod Batch
mod Tests
