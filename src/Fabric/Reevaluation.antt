-- ===== src/Fabric/Reevaluation.antt =====
-- `reevaluate_runtime_authority` of crates/fabric/src/lib.rs: every session and listener of the runtime
-- against the authority's state.
pub mod Reports
pub mod Checks
pub mod Listeners
use quipnet.Base.{
  ℕ, suc, Bool, true, false, not, ◌&&◌, Option, none, some, List, [], ◌∷◌, ◌++◌, Bytes, text,
  length, ◌==◌, ◌!=◌, bytes_eq, option_eq, Eq, any, if◌then◌else◌, Result, ok, err,
}
use quipnet.Model.{PeerId, ProtocolId}
use quipnet.Crypto.{IdentityKeypair, peer_id}
use quipnet.PeerText.{to_text}
use quipnet.Control.{is_some, or_else}
use quipnet.Relay.Paths.{hex_session_id}
use quipnet.Routing.{class_eq}
use quipnet.Transport.{
  SessionSnapshot, RoutePlan, RuntimeSessionState, SessionClosureReason, local_runtime_failure,
  policy_rejected, RuntimeEvent, Value, null, num, flag, str, ReconnectSuppression,
  RuntimeListenerSnapshot, RuntimeListenerState, TransportError,
}
use quipnet.Fabric.State.{DaemonState, DaemonStateError, no_route}
use quipnet.Fabric.Policies.{
  Decision, explain_policy, explain_local_protocol_policy, AuthorityPolicyCause, subject_mismatch,
  local_membership_denied, peer_membership_denied, capability_denied, cause_label, local_cause,
  classify_remote_policy_cause,
}
use quipnet.Fabric.Routes.{session_matches_route}
use quipnet.Fabric.ErrorTexts.{transport_error_text}
use quipnet.Fabric.Exec.{Exec, pure, fail, reads, calls, tries, ◌>>=◌, ◌>>◌}
use quipnet.Fabric.Plane.{Plane, ensure_state, plan}
use quipnet.Fabric.Sessions.{traffic_class_debug, mark, fail_and_close_session}
use quipnet.Fabric.Runtime.{local_policy_reason, listener_state_eq}
use quipnet.Fabric.Reevaluation.Reports.{
  AuthorityReevaluationReport, blank_report, Enforcement, count_cause, is_suppressed, Report,
  session_state_eq, one_if, opt_text, other_path, stuck_path, no_path,
}
use quipnet.Fabric.Reevaluation.Checks.{reevaluate_sessions}
use quipnet.Fabric.Reevaluation.Listeners.{reevaluate_listeners}

module _ {F S : Type 0} (p : Plane F S) where
  started_event : DaemonState F → PeerId → Report → ℕ → RuntimeEvent
  started_event s identity r sessions = record {
    event_type = text "authority.reevaluation_started";
    subject_kind = text "authority";
    subject_id = to_text p.crypto identity;
    details =
        (text "active_sessions", num sessions)
        ∷ (text "authority_subject_peer_id", str (to_text p.crypto s.membership.subject_peer_id))
        ∷ (text "runtime_peer_id", str (to_text p.crypto identity))
        ∷ (text "authority_subject_mismatch", flag r.authority_subject_mismatch)
        ∷ (text "local_policy_reason", opt_text r.local_policy_reason)
        ∷ [];
  }

  completed_event : PeerId → Report → RuntimeEvent
  completed_event identity r = record {
    event_type = text "authority.reevaluation_completed";
    subject_kind = text "authority";
    subject_id = to_text p.crypto identity;
    details =
        (text "reevaluated_sessions", num r.reevaluated_sessions)
        ∷ (text "closed_sessions", num r.closed_sessions)
        ∷ (text "degraded_sessions", num r.degraded_sessions)
        ∷ (text "migrated_sessions", num r.migrated_sessions)
        ∷ (text "unchanged_sessions", num r.unchanged_sessions)
        ∷ (text "reevaluated_listeners", num r.reevaluated_listeners)
        ∷ (text "suppressed_listeners", num r.suppressed_listeners)
        ∷ (text "restored_listeners", num r.restored_listeners)
        ∷ (text "reconnect_suppressions_added", num r.reconnect_suppressions_added)
        ∷ (text "reconnect_suppressions_cleared", num r.reconnect_suppressions_cleared)
        ∷ (text "local_policy_denied", flag r.local_policy_denied)
        ∷ (text "authority_subject_mismatch", flag r.authority_subject_mismatch)
        ∷ (text "subject_mismatch_sessions", num r.subject_mismatch_sessions)
        ∷ (text "local_membership_denied_sessions", num r.local_membership_denied_sessions)
        ∷ (text "peer_membership_denied_sessions", num r.peer_membership_denied_sessions)
        ∷ (text "capability_denied_sessions", num r.capability_denied_sessions)
        ∷ (text "local_policy_reason", opt_text r.local_policy_reason)
        ∷ [];
  }

  unfoldable pub reevaluate_runtime_authority : IdentityKeypair → Exec S Report
  unfolding started_event completed_event
  reevaluate_runtime_authority runtime_identity = do
    s ← ensure_state p
    let identity = peer_id p.crypto runtime_identity
    let r =
        blank_report (s.membership.subject_peer_id != identity)
          (local_policy_reason p.crypto s identity)
    sessions ← reads p.transport.active_sessions
    calls (p.transport.record_runtime_event (started_event s identity r (length sessions)))
    sessions ← reads p.transport.active_sessions
    r ← reevaluate_sessions p r s sessions
    listeners ← reads p.transport.active_listeners
    r ← reevaluate_listeners p r s listeners
    calls (p.transport.record_runtime_event (completed_event identity r))
    pure r
