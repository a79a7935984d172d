-- ===== src/Fabric/Reevaluation/Checks.antt =====
-- The loop of `reevaluate_runtime_authority` in crates/fabric/src/lib.rs over the sessions.
use quipnet.Base.{
  suc, not, Option, none, some, List, [], ◌∷◌, ◌++◌, Bytes, text, ◌==◌, bytes_eq, option_eq,
  if◌then◌else◌, Result, ok, err,
}
use quipnet.Model.{ProtocolId}
use quipnet.PeerText.{to_text}
use quipnet.Relay.Paths.{hex_session_id}
use quipnet.Routing.{class_eq}
use quipnet.Transport.{
  SessionSnapshot, RoutePlan, RuntimeSessionState, local_runtime_failure, policy_rejected,
  RuntimeEvent, flag, str, TransportError,
}
use quipnet.Fabric.State.{DaemonState, DaemonStateError, no_route}
use quipnet.Fabric.Policies.{explain_policy, cause_label, local_cause, classify_remote_policy_cause}
use quipnet.Fabric.Routes.{session_matches_route}
use quipnet.Fabric.ErrorTexts.{transport_error_text}
use quipnet.Fabric.Exec.{Exec, pure, fail, reads, calls, tries, ◌>>=◌, ◌>>◌}
use quipnet.Fabric.Plane.{Plane, plan}
use quipnet.Fabric.Sessions.{traffic_class_debug, mark, fail_and_close_session}
use quipnet.Fabric.Runtime.{listener_state_eq}
use quipnet.Fabric.Reevaluation.Reports.{
  Enforcement, count_cause, is_suppressed, Report, session_state_eq, one_if, other_path, stuck_path,
  no_path,
}

module _ {F S : Type 0} (p : Plane F S) where
  -- An event of a path, with the reason of the change.
  pub path_event : Bytes → SessionSnapshot → ProtocolId → Bytes → RuntimeEvent
  path_event event_type session protocol reason = record {
    event_type = event_type;
    subject_kind = text "session";
    subject_id = hex_session_id session.session_id;
    details =
        (text "peer_id", str (to_text p.crypto session.peer))
        ∷ (text "protocol", str protocol)
        ∷ (text "class", str (traffic_class_debug session.class))
        ∷ (text "reason", str reason)
        ∷ [];
  }

  pub enforced_event : Report → SessionSnapshot → ProtocolId → Enforcement → RuntimeEvent
  enforced_event r session protocol e = record {
    event_type = text "authority.policy_enforced";
    subject_kind = text "session";
    subject_id = hex_session_id session.session_id;
    details =
        (text "peer_id", str (to_text p.crypto session.peer))
        ∷ (text "protocol", str protocol)
        ∷ (text "class", str (traffic_class_debug session.class))
        ∷ (text "action", str (text "close_and_suppress_reconnect"))
        ∷ (text "cause", str (cause_label e.cause))
        ∷ (text "reason", str e.reason)
        ∷ (text "local_policy_denied", flag r.local_policy_denied)
        ∷ (text "authority_subject_mismatch", flag r.authority_subject_mismatch)
        ∷ [];
  }

  -- What the policy enforces on a session.
  unfoldable pub enforcement :
      Report → DaemonState F → SessionSnapshot → ProtocolId → Option Enforcement
  enforcement r s session protocol =
      let policy = explain_policy p.crypto s session.peer protocol in
      elim r.local_policy_reason [
        | some reason ↦
            some (record { cause = local_cause r.authority_subject_mismatch; reason = reason })
        | none ↦
            if not policy.allowed
            then some (record {
              cause = classify_remote_policy_cause s session.peer policy.reason;
              reason = policy.reason;
            })
            else none
      ]

  -- Suppress reconnects, and close the session.
  unfoldable pub enforce : Report → SessionSnapshot → ProtocolId → Enforcement → Exec S Report
  unfolding enforced_event
  enforce r session protocol e = do
    suppressions ← reads p.transport.reconnect_suppressions
    calls (p.transport.suppress_reconnect session.peer (some protocol) session.class e.reason)
    mark p session.session_id RuntimeSessionState.closing (some policy_rejected) e.reason
    calls (p.transport.record_runtime_event (enforced_event r session protocol e))
    calls (p.transport.close_session session)
    let r = count_cause e.cause r
    pure (record r {
      reconnect_suppressions_added =
          one_if (not (is_suppressed session protocol suppressions)) r.reconnect_suppressions_added;
      closed_sessions = suc r.closed_sessions;
    })

  -- Keep the session in a degraded state.
  unfoldable pub degrade : Report → SessionSnapshot → ProtocolId → Bytes → Exec S Report
  unfolding path_event
  degrade r session protocol reason = do
    mark p session.session_id RuntimeSessionState.degraded none reason
    calls (
        p.transport.record_runtime_event
          (path_event (text "path.degraded") session protocol reason))
    pure (record r { degraded_sessions = suc r.degraded_sessions })

  -- The match on the result of `migrate`.
  unfoldable pub after_migrate :
      Report → SessionSnapshot → ProtocolId → Result TransportError SessionSnapshot → Exec S Report
  after_migrate r session protocol (ok _) =
      pure (record r { migrated_sessions = suc r.migrated_sessions })
  after_migrate r session protocol (err e) =
      let reason =
        text "authority reevaluation migration failed: " ++ transport_error_text p.crypto e in
      do
        fail_and_close_session p session local_runtime_failure reason
        calls (p.transport.suppress_reconnect session.peer (some protocol) session.class reason)
        pure (record r { closed_sessions = suc r.closed_sessions })

  -- The session of which the route is unchanged.
  unfoldable pub restore : Report → SessionSnapshot → Exec S Report
  restore r session =
      let same = pure (record r { unchanged_sessions = suc r.unchanged_sessions }) in
      if session.state == RuntimeSessionState.degraded
      then (do
        mark p session.session_id RuntimeSessionState.active none
            (text "authority reevaluation restored the selected path posture")
        same)
      else same

  -- The match on the route plan.
  unfoldable pub reroute :
      Report → SessionSnapshot → ProtocolId → Result DaemonStateError RoutePlan → Exec S Report
  unfolding restore after_migrate degrade path_event
  reroute r session protocol (err (no_route _)) = degrade r session protocol no_path
  reroute r session protocol (err e) = fail e
  reroute r session protocol (ok route) =
      if session_matches_route session route
      then restore r session
      else if session.migration_capable
      then (do
        calls (
            p.transport.record_runtime_event
              (path_event (text "path.migration_started") session protocol other_path))
        mark p session.session_id RuntimeSessionState.migrating none other_path
        migrated ← tries (p.transport.migrate session route)
        after_migrate r session protocol migrated)
      else degrade r session protocol stuck_path

  -- Allow reconnects again, and follow the route.
  unfoldable pub follow : Report → DaemonState F → SessionSnapshot → ProtocolId → Exec S Report
  unfolding reroute
  follow r s session protocol = do
    suppressions ← reads p.transport.reconnect_suppressions
    calls (p.transport.clear_reconnect_suppression session.peer (some protocol) session.class)
    let r = record r {
      reconnect_suppressions_cleared =
          one_if (is_suppressed session protocol suppressions) r.reconnect_suppressions_cleared;
    }
    reroute r session protocol (plan p s session.peer (some protocol) session.class)

  unfoldable pub with_protocol :
      Report → DaemonState F → SessionSnapshot → Option ProtocolId → Exec S Report
  with_protocol r s session none = pure r
  with_protocol r s session (some protocol) =
      let r = record r { reevaluated_sessions = suc r.reevaluated_sessions } in
      elim (enforcement r s session protocol) [
        | some e ↦ enforce r session protocol e
        | none ↦ follow r s session protocol
      ]

  unfoldable pub reevaluate_sessions : Report → DaemonState F → List SessionSnapshot → Exec S Report
  unfolding with_protocol
  reevaluate_sessions r s [] = pure r
  reevaluate_sessions r s (session ∷ sessions) = do
    r ← with_protocol r s session session.protocol
    reevaluate_sessions r s sessions
