-- ===== src/Server.antt =====
-- src/server: request admission, batch handling and routing of the HTTP server.
pub mod Staging
pub mod Repository
pub mod Batch
pub mod Authorization
pub mod Upload
pub mod Download
pub mod Dispatch
pub mod Routing
