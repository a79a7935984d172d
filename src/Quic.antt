-- ===== src/Quic.antt =====
-- crates/quic/src/lib.rs: the transport adapter with its registries of sessions, listeners, events
-- and reconnects. Every lock is taken for one access and never poisoned; an operation reads the
-- clock once, and random bytes are arguments.
mod State
mod Reconnect
mod Plans
mod Sessions
mod Calls
mod Listeners
pub mod Backoff
pub mod Health
pub mod Registry
pub mod Runs
pub mod Histories
pub mod Closing
pub mod Planned
pub mod Parties
pub mod Migration
pub mod Releases
pub mod Lifecycle
unfoldable pub use State.*
unfoldable pub use Reconnect.*
unfoldable pub use Plans.*
unfoldable pub use Sessions.*
unfoldable pub use Calls.*
unfoldable pub use Listeners.*
