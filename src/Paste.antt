-- ===== src/Paste.antt =====
-- src/paste.rs: the kinds of paste and their names, and the storage of what is uploaded.
pub mod Kind
pub mod Path
pub mod Storage
pub mod Write
pub mod Kept
pub mod Stored
pub mod Placed
pub mod Header
pub mod Remote
pub mod Tests
