-- ===== src/Server.antt =====
-- src/server.rs: the handlers' use of paste metadata.
pub mod Metadata
pub mod Expiry
pub mod Delete
pub mod Mime
pub mod Password
pub mod Serve
pub mod Once
pub mod Protected
pub mod List
pub mod Upload
pub mod Answer
pub mod Persisted
pub mod StoredRow
pub mod Recorded
pub mod Tests
pub mod ServingTests
pub mod UploadTests
