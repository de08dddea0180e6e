-- ===== src/Ownership.antt =====
-- src/ownership.rs: the scan of the upload directories for the reconciliation of paste metadata.
pub mod Expiry
pub mod Scan
pub mod Scanned
pub mod Tests
