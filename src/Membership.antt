-- ===== src/Membership.antt =====
-- crates/membership/src/lib.rs: the four signed artifacts of an authority, each issued and verified.
-- The unsigned payload is the record without its signature; `serde_json::to_vec` is the parameter
-- `json` of each module. Times are `u64` seconds, here numbers.
mod Types
mod Token
mod Certificate
mod Grant
mod Revocation
pub mod Windows
unfoldable pub use Types.*
unfoldable pub use Token.*
unfoldable pub use Certificate.*
unfoldable pub use Grant.*
unfoldable pub use Revocation.*
