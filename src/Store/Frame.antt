-- ===== src/Store/Frame.antt =====
-- src/store.rs: which tables a call may change. Each lemma says that a call keeps whatever holds
-- of the database whatever stands in the tables that the call writes.
mod Credentials
mod Flows
mod Pastes
pub use Credentials.*
pub use Flows.*
pub use Pastes.*
