-- ===== src/Fabric.antt =====
-- crates/fabric/src/lib.rs: the daemon's state and the control plane over it.
pub mod State
pub mod Addresses
pub mod Estimates
pub mod Peers
pub mod Candidates
pub mod Authority
pub mod Policies
pub mod Routes
pub mod Json
pub mod Durable
pub mod ErrorTexts
pub mod Files
pub mod Backup
pub mod Fixture
pub mod Exec
pub mod Plane
pub mod Sessions
pub mod Runtime
pub mod Reevaluation
pub mod Alternatives
pub mod Paths
pub mod Denials
pub mod Allowances
pub mod Refreshes
pub mod RoutePlans
pub mod Reach
pub mod OverQuic
pub mod Admissions
pub mod Bounds
pub mod Rollups
pub mod Migrations
pub mod Inspections
pub mod Bundles
pub mod Keeping
pub mod Methods
pub mod Cycles
pub mod Seeding
