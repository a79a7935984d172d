-- ===== src/Fabric/Reevaluation/Listeners.antt =====
-- The loop of `reevaluate_runtime_authority` in crates/fabric/src/lib.rs over the listeners.
use quipnet.Base.{
  suc, ◌&&◌, Option, none, some, List, [], ◌∷◌, Bytes, text, ◌==◌, bytes_eq, option_eq,
  if◌then◌else◌,
}
use quipnet.Control.{or_else}
use quipnet.Routing.{class_eq}
use quipnet.Transport.{RuntimeEvent, flag, str, RuntimeListenerSnapshot, RuntimeListenerState}
use quipnet.Fabric.State.{DaemonState}
use quipnet.Fabric.Policies.{Decision, explain_local_protocol_policy}
use quipnet.Fabric.Exec.{Exec, pure, calls, ◌>>=◌, ◌>>◌}
use quipnet.Fabric.Plane.{Plane}
use quipnet.Fabric.Runtime.{listener_state_eq}
use quipnet.Fabric.Reevaluation.Reports.{Report, session_state_eq}

module _ {F S : Type 0} (p : Plane F S) where
  pub listener_suppressed_event : Report → RuntimeListenerSnapshot → Bytes → RuntimeEvent
  listener_suppressed_event r l reason = record {
    event_type = text "authority.policy_enforced";
    subject_kind = text "listener";
    subject_id = l.listener_id;
    details =
        (text "listener_id", str l.listener_id)
        ∷ (text "protocol", str l.protocol)
        ∷ (text "action", str (text "suppress_listener"))
        ∷ (text "reason", str reason)
        ∷ (text "local_policy_denied", flag r.local_policy_denied)
        ∷ (text "authority_subject_mismatch", flag r.authority_subject_mismatch)
        ∷ [];
  }

  abbrev denial : Decision → Option Bytes
  denial decision = if decision.allowed then none else some decision.reason

  -- The tests on a listener that has not failed, with the reason to suppress it.
  unfoldable pub bar_listener : Report → RuntimeListenerSnapshot → Option Bytes → Exec S Report
  unfolding listener_suppressed_event
  bar_listener r l (some reason) = do
    calls (
        p.transport.update_listener_state l.listener_id RuntimeListenerState.suppressed
          (some reason))
    if (l.state == RuntimeListenerState.suppressed) && (l.state_reason == some reason)
        then pure r
        else (do
          calls (p.transport.record_runtime_event (listener_suppressed_event r l reason))
          pure (record r { suppressed_listeners = suc r.suppressed_listeners }))
  bar_listener r l none =
      if l.state == RuntimeListenerState.suppressed
      then (do
        calls (p.transport.update_listener_state l.listener_id RuntimeListenerState.active none)
        pure (record r { restored_listeners = suc r.restored_listeners }))
      else pure r

  unfoldable pub reevaluate_listeners :
      Report → DaemonState F → List RuntimeListenerSnapshot → Exec S Report
  unfolding bar_listener
  reevaluate_listeners r s [] = pure r
  reevaluate_listeners r s (l ∷ listeners) = do
    let r = record r { reevaluated_listeners = suc r.reevaluated_listeners }
    r ←
        (if l.state == RuntimeListenerState.failed
          then pure r
          else bar_listener r l (
              or_else r.local_policy_reason
                (denial (explain_local_protocol_policy p.crypto s l.protocol))))
    reevaluate_listeners r s listeners
