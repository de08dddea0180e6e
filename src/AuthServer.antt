-- ===== src/AuthServer.antt =====
-- src/auth_server.rs: the endpoints under /auth, browser login and the command line's login.
pub mod Response
pub mod Escape
pub mod Login
pub mod Callback
pub mod Opened
pub mod Device
pub mod Account
pub mod Admin
pub mod Requests
pub mod Steps
pub mod Refines
pub mod Sessions
pub mod Redirect
pub mod Tests
pub mod SessionTests
