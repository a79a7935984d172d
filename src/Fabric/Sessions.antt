-- ===== src/Fabric/Sessions.antt =====
-- The sessions of a `LocalControlPlane` in crates/fabric/src/lib.rs: opening, closing and upgrading
-- one, the steps that these share with the cycle of reconciliation, and the report of the cycle.
pub mod Reconcile
use quipnet.Base.{
  ℕ, suc, Option, none, some, List, [], ◌∷◌, ◌++◌, Bytes, text, length, if◌then◌else◌, Result, ok,
  err, ok_or,
}
use quipnet.Model.{
  PeerId, ProtocolId, TrafficClass, PathKind, control, interactive, bulk, background, direct_udp,
  direct_ipv6, relay, loopback, lan,
}
use quipnet.PeerText.{to_text}
use quipnet.Relay.Paths.{hex_session_id}
use quipnet.Transport.{
  SessionSnapshot, RoutePlan, RuntimeSessionState, active, migrating, reconciling, closing, failed,
  SessionClosureReason, operator_requested, local_runtime_failure, remote_failure, policy_rejected,
  path_exhaustion, daemon_shutdown, Value, null, str, TransportError,
}
use quipnet.Fabric.State.{
  DaemonState, DaemonStateError, no_route, session_not_found, invalid_session, policy_denied,
  with_active_session, without_session,
}
use quipnet.Fabric.Policies.{explain_policy}
use quipnet.Fabric.Routes.{session_matches_route}
use quipnet.Fabric.ErrorTexts.{transport_error_text}
use quipnet.Fabric.Exec.{Exec, pure, fail, lift, reads, calls, tries, ◌>>=◌, ◌>>◌}
use quipnet.Fabric.Plane.{Plane, ensure_state, save, plan}

pub data SessionReconcileDisposition : Type 0 where
  unchanged upgraded closed : SessionReconcileDisposition

pub record SessionReconcileEntry : Type 0 where
  pub session_id : Bytes
  pub peer : PeerId
  pub disposition : SessionReconcileDisposition
  pub reason : Bytes
  pub path_kind : Option PathKind

pub record SessionReconcileReport : Type 0 where
  pub examined : ℕ
  pub unchanged : ℕ
  pub upgraded : ℕ
  pub closed : ℕ
  pub entries : List SessionReconcileEntry

-- The counters and the entries of the cycle so far.
pub record Tally : Type 0 where
  pub unchanged : ℕ
  pub upgraded : ℕ
  pub closed : ℕ
  pub entries : List SessionReconcileEntry

abbrev pub entry :
    SessionSnapshot → SessionReconcileDisposition → Bytes → Option PathKind → SessionReconcileEntry
entry session disposition reason path_kind = record {
  session_id = session.session_id;
  peer = session.peer;
  disposition = disposition;
  reason = reason;
  path_kind = path_kind;
}

unfoldable pub path_failure_cause : SessionClosureReason → Bytes
path_failure_cause operator_requested = text "operator_requested"
path_failure_cause local_runtime_failure = text "local_runtime_failure"
path_failure_cause remote_failure = text "remote_failure"
path_failure_cause policy_rejected = text "policy_rejected"
path_failure_cause path_exhaustion = text "path_exhaustion"
path_failure_cause daemon_shutdown = text "daemon_shutdown"

abbrev pub traffic_class_debug : TrafficClass → Bytes
traffic_class_debug control = text "Control"
traffic_class_debug interactive = text "Interactive"
traffic_class_debug bulk = text "Bulk"
traffic_class_debug background = text "Background"

abbrev kind_debug : PathKind → Bytes
kind_debug direct_udp = text "DirectUdp"
kind_debug direct_ipv6 = text "DirectIpv6"
kind_debug relay = text "Relay"
kind_debug loopback = text "Loopback"
kind_debug lan = text "Lan"

abbrev opt_protocol : Option ProtocolId → Value
opt_protocol none = null
opt_protocol (some q) = str q

-- The session and the rest of the state, as the cycle goes on.
abbrev pub Cycle : Type 0 → Type 0
Cycle F = DaemonState F × Tally

module _ {F S : Type 0} (p : Plane F S) where
  unfoldable pub record_path_failure_event : SessionSnapshot → Bytes → Bytes → Exec S (Unit {0})
  record_path_failure_event session cause reason = calls (
      p.transport.record_runtime_event (record {
        event_type = text "path.failed";
        subject_kind = text "session";
        subject_id = hex_session_id session.session_id;
        details =
            (text "peer_id", str (to_text p.crypto session.peer))
            ∷ (text "protocol", opt_protocol session.protocol)
            ∷ (text "class", str (traffic_class_debug session.class))
            ∷ (text "path_class", str (kind_debug session.path_kind))
            ∷ (text "cause", str cause)
            ∷ (text "reason", str reason)
            ∷ [];
      }))

  -- `update_session_state(..)?` of the transport, whose answer is dropped.
  abbrev pub mark :
      Bytes
      → RuntimeSessionState
      → Option SessionClosureReason
      → Bytes
      → Exec S (Option SessionSnapshot)
  mark id state closure reason =
      calls (p.transport.update_session_state id state closure (some reason))

  unfoldable pub fail_and_close_session :
      SessionSnapshot → SessionClosureReason → Bytes → Exec S (Unit {0})
  fail_and_close_session session closure_reason state_reason = do
    mark session.session_id failed (some closure_reason) state_reason
    record_path_failure_event session (path_failure_cause closure_reason) state_reason
    calls (p.transport.close_session session)

  -- `session_snapshot(id)?.ok_or_else(..)?`.
  unfoldable pub existing_session : Bytes → Exec S SessionSnapshot
  existing_session id = do
    found ← reads (p.transport.session_snapshot id)
    lift (ok_or found (session_not_found (hex_session_id id)))

  -- `state.active_sessions = transport.active_sessions()?; state.save(..)?`.
  unfoldable pub persist : DaemonState F → Exec S (Unit {0})
  persist s = do
    sessions ← reads p.transport.active_sessions
    save p (record s { active_sessions = sessions })

  unfoldable pub sync_runtime_sessions : Exec S (DaemonState F)
  sync_runtime_sessions = do
    s ← ensure_state p
    sessions ← reads p.transport.active_sessions
    pure (record s { active_sessions = sessions })

  unfoldable pub close_session : Bytes → Exec S (Unit {0})
  close_session id = do
    s ← ensure_state p
    session ← existing_session id
    mark id closing (some operator_requested) (text "operator requested close")
    calls (p.transport.close_session session)
    persist s

  unfoldable pub upgrade_session : Bytes → Exec S SessionSnapshot
  upgrade_session id = do
    s ← ensure_state p
    session ← existing_session id
    protocol ←
        lift (ok_or session.protocol (invalid_session (text "session has no negotiated protocol")))
    let policy = explain_policy p.crypto s session.peer protocol
    if policy.allowed
        then (do
          mark id migrating none (text "daemon selected a better path")
          route ← lift (plan p s session.peer (some protocol) session.class)
          moved ← calls (p.transport.migrate session route)
          persist (with_active_session s moved)
          pure moved)
        else (do
          mark id failed (some policy_rejected) policy.reason
          fail (policy_denied policy.reason))

  unfoldable pub realize_best_path : PeerId → ProtocolId → TrafficClass → Exec S SessionSnapshot
  realize_best_path peer protocol class = do
    s ← ensure_state p
    let policy = explain_policy p.crypto s peer protocol
    if policy.allowed
        then (do
          route ← lift (plan p s peer (some protocol) class)
          session ← calls (p.transport.connect route)
          persist (with_active_session s session)
          pure session)
        else fail (policy_denied policy.reason)
