-- ===== src/Config.antt =====
-- src/config.rs: the claim rules that gate logins, and the static tokens.
pub mod Claims
pub mod Tokens
pub mod Filenames
