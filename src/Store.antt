-- ===== src/Store.antt =====
-- src/store.rs: the SQLite store of identities, credentials, login flows and paste metadata.
pub mod Base
pub mod Schema
pub mod Keeps
pub mod Principals
pub mod Credentials
pub mod Authenticate
pub mod OauthFlows
pub mod DeviceFlows
pub mod Purge
pub mod UserCodes
pub mod Pastes
pub mod Frame
pub mod Calls
pub mod Tests
