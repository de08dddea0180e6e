-- ===== src/Util.antt =====
-- src/util.rs: addresses that a remote upload may not fetch, paths, extensions and sizes.
pub mod Ip
pub mod Blocks
pub mod Blocks6
pub mod Remote
pub mod Extension
pub mod Tests
