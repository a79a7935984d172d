-- ===== src/Lib.antt =====
-- Quip, the base layer of a decentralised network: the crates under crates/ of the repository. A
-- node has a key pair, whose public key gives its peer id. An authority issues it signed artifacts,
-- which its control client merges into the snapshot that it holds. Paths to peers are scored and
-- one is selected, directly or through a relay; a relay admits a source that proves its identity
-- and counts its sessions; the transport adapter keeps the node's events and reconnects. The daemon
-- keeps its state in a file, plans routes from it, and reconciles the sessions of its transport
-- with the policy and the routes.
--
-- Files and code:
--   * Model, PeerText: crates/model/src/lib.rs, identifiers as their bytes and their text
--     (PeerId::to_text, from_str, ProtocolId::new).
--   * Crypto: crates/crypto/src/lib.rs. ed25519-dalek, blake3, unsigned-varint and data-encoding are
--     the record Primitives; what some theorems use of them is IsGenuine and IsBase32.
--   * Identity, Membership, Records: crates/identity, crates/membership and crates/records, the
--     `issue`/`sign` and `verify` of each artifact; `serde_json::to_vec` is the parameter `json`.
--   * Routing: crates/routing/src/lib.rs (score_breakdown, explain, select_best_path).
--   * Policy: crates/policy/src/lib.rs (PolicyEngine::evaluate).
--   * RelayWire: crates/relaywire/src/lib.rs.
--   * Relay: crates/relay/src/lib.rs. Runtime has RelayRuntime, Admission the guards of an open
--     request, Service RelayService (open_session is open_relay_session, close_session
--     close_relay_session), Paths the session paths, Http control_response and
--     Registry the process-wide registry.
--   * Control: crates/control/src/lib.rs (merge_snapshot and its helpers, in Merge).
--   * Transport, Quic: crates/transport/src/lib.rs and crates/quic/src/lib.rs: State has the adapter
--     and its event buffer, Reconnect the attempts and suppressions, Plans the session snapshots for
--     routes, Sessions the registry and the ledger, Calls connect, migrate and close_session,
--     Listeners the listeners and the health, Lifecycle the adapter as a LifecycleTransport. A relay
--     is asked through the record RelayControl, whose state is passed along with the adapter; Runs
--     has the histories of calls.
--   * PeerStore, Discovery: crates/peerstore/src/lib.rs and crates/discovery/src/lib.rs (its
--     BootstrapHint is DiscoveryHint here).
--   * Protocol: crates/protocol/src/lib.rs (ProtocolRegistry::register and negotiate).
--   * Netcheck, Scheduler: crates/netcheck/src/lib.rs and crates/scheduler/src/lib.rs.
--   * Fabric: crates/fabric/src/lib.rs. State has DaemonState with its queries, Addresses the texts
--     of endpoints, Estimates, Candidates and Routes the candidates and route plans, Peers the peers
--     and hints, Authority the snapshots and revocations, Policies explain_policy, Json, Durable and
--     Files the state file, ErrorTexts the messages of errors, Backup the bundles (their code in
--     Bundle), Fixture the first state. Exec is a method of LocalControlPlane as a function of the
--     disk and the transport; Plane (with Sync for the authority), Sessions (with Reconcile for
--     reconcile_sessions), Runtime, Reevaluation, Alternatives and Paths have its methods. serde_json, scrypt, ChaCha20-Poly1305, SHA-256 and
--     base64 are the records Serde and Sealing, the transport is LifecycleTransport and the HTTP
--     client the record Authority. The proofs are in Denials, Allowances, Refreshes, RoutePlans,
--     Reach, Bounds, Rollups, Migrations, Inspections, Bundles, Cycles and Seeding; Keeping and
--     Methods say what the methods do to any transport, and OverQuic and Admissions put them over
--     the adapter of Quic.Lifecycle.
--   * Base: shared types and lemmas (Lists, Maps, Sorting, Texts, Words); Tests: runs on concrete
--     inputs.
--
-- State is passed explicitly, and a lock is taken for one access that never fails. An operation
-- reads the clock once, and the time, like random bytes, is an argument. A BTreeMap is a list
-- sorted by its keys. A u32 or u64 that the source adds plainly wraps (the release profile), and
-- one that it adds with saturation saturates; `usize` counts are unbounded. The loss of a path is
-- an f32 in the source; here it is of any type, with its product and cast to u32 as a parameter.
-- A BTreeMap key or a set of strings is ordered by bytes. A panic is a value of its own where the
-- code can reach one. The text of a decimal and str::replace have fuel: 20 digits, which a
-- u64 fits in, and the length of the text, since every step takes a byte. Nothing else needs fuel.
--
-- Not modelled: HTTP clients and servers, directories and the errors of a disk other than a missing
-- file, logging, the text of times and of event ids, the X25519 session keys, the printed status of
-- the daemon, its process, its interface and the commands.
pub mod Base
pub mod Model
pub mod Crypto
pub mod PeerText
pub mod Membership
pub mod Routing
pub mod Policy
pub mod Identity
pub mod Records
pub mod RelayWire
pub mod Relay
pub mod Control
pub mod Netcheck
pub mod Scheduler
pub mod Fabric
pub mod Transport
pub mod Quic
pub mod PeerStore
pub mod Discovery
pub mod Protocol
pub mod Tests
