-- ===== src/Relay.antt =====
-- crates/relay/src/lib.rs: the relay's session table, its admission of sessions and its HTTP control.
mod Runtime
mod Admission
mod Service
pub mod Cases
pub mod Quota
pub mod Registry
pub mod Fleet
pub mod Lifecycle
pub mod Trust
pub mod Paths
pub mod Http
unfoldable pub use Runtime.*
unfoldable pub use Admission.*
unfoldable pub use Service.*
