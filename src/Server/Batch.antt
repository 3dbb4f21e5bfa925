-- ===== src/Server/Batch.antt =====
-- src/server/batch.rs: answers to batch requests, and the credentials that requests carry.
pub mod Response
pub mod Lookup
pub mod Credentials
pub mod Handler
pub mod Agreement
mod Tests
