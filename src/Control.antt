-- ===== src/Control.antt =====
-- crates/control/src/lib.rs: how a client merges an authority's snapshot into its own. The HTTP
-- calls that fetch snapshots are not modelled.
mod Merge
pub mod Hints
pub mod Certificates
pub mod Snapshots
pub mod Repeats
unfoldable pub use Merge.*
