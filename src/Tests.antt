-- ===== src/Tests.antt =====
-- Runs of the models on concrete inputs.
mod Toy
mod Codecs
mod Artifacts
mod Decisions
mod RelayRuns
mod ControlRuns
mod Reconnects
mod Transports
mod Peers
mod Negotiations
mod Daemons
mod Backups
mod Cycles
mod DaemonRuns
mod Reaches
mod Daily
