-- ===== src/Auth.antt =====
-- src/auth.rs: who a request is from, with OpenID Connect and with static tokens alone.
pub mod Request
pub mod Oidc
pub mod Legacy
pub mod Origin
pub mod Accepted
pub mod Backing
pub mod Cookies
pub mod Tests
