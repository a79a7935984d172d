-- ===== src/Fabric/Runtime.antt =====
-- What crates/fabric/src/lib.rs reports of the runtime: listeners under the local policy, and health.
use quipnet.Base.{
  ℕ, Bool, not, ◌&&◌, Option, none, some, List, [], ◌∷◌, ◌++◌, map, Bytes, text, ◌==◌, ◌!=◌, nat_eq,
  bytes_eq, Eq, ltb, any, count, if◌then◌else◌,
}
use quipnet.Crypto.{Primitives}
use quipnet.PeerText.{to_text}
use quipnet.Control.{is_some}
use quipnet.Transport.{
  RuntimeListenerSnapshot, RuntimeListenerState, RuntimeReconnectState, RuntimeTransportHealth,
}
use quipnet.Fabric.State.{DaemonState, deny_reason}
use quipnet.Fabric.Policies.{Decision, explain_local_protocol_policy}

pub data RuntimeHealthLevel : Type 0 where
  ready degraded failed suppressed : RuntimeHealthLevel

pub RuntimeHealthLevel-discrete : Discrete RuntimeHealthLevel
RuntimeHealthLevel-discrete = hlevel

instance abbrev pub level_eq : Eq RuntimeHealthLevel
level_eq = record { dec = RuntimeHealthLevel-discrete }

pub RuntimeListenerState-discrete : Discrete RuntimeListenerState
RuntimeListenerState-discrete = hlevel

instance abbrev pub listener_state_eq : Eq RuntimeListenerState
listener_state_eq = record { dec = RuntimeListenerState-discrete }

pub record RuntimeHealthReport : Type 0 where
  pub daemon_readiness : RuntimeHealthLevel
  pub authority_sync_health : RuntimeHealthLevel
  pub runtime_registry_health : RuntimeHealthLevel
  pub path_manager_health : RuntimeHealthLevel
  pub reconnect_subsystem_health : RuntimeHealthLevel
  pub authority_subject_status : Bytes
  pub authority_deny_reason : Option Bytes
  pub active_sessions : ℕ
  pub active_paths : ℕ
  pub active_listeners : ℕ
  pub reconnect_state : RuntimeReconnectState
  pub reconnect_attempt_count : ℕ
  pub reconnect_next_attempt_unix_secs : Option ℕ
  pub reconnect_suppression_count : ℕ
  pub runtime_event_buffer_depth : ℕ

unfoldable pub runtime_reconnect_health_level : RuntimeReconnectState → RuntimeHealthLevel
runtime_reconnect_health_level RuntimeReconnectState.idle = ready
runtime_reconnect_health_level RuntimeReconnectState.active = degraded
runtime_reconnect_health_level RuntimeReconnectState.suppressed = suppressed
runtime_reconnect_health_level RuntimeReconnectState.failed = failed

unfoldable pub runtime_rollup_health : List RuntimeHealthLevel → RuntimeHealthLevel
runtime_rollup_health levels =
    if any (λ level. level == failed) levels
    then failed
    else if any (λ level. level == suppressed) levels
    then suppressed
    else if any (λ level. level == degraded) levels
    then degraded
    else ready

-- The end of the loop's body, on the decision about the listener's protocol.
decided : RuntimeListenerSnapshot → Decision → RuntimeListenerSnapshot
decided l decision =
    if not decision.allowed
    then record l { state = RuntimeListenerState.suppressed; state_reason = some decision.reason }
    else if l.state == RuntimeListenerState.suppressed
    then record l { state = RuntimeListenerState.active; state_reason = none }
    else l

authority_health : Bool → Option Bytes → RuntimeHealthLevel
authority_health mismatch deny =
    if mismatch then failed else if is_some deny then suppressed else ready

path_health : ℕ → ℕ → RuntimeHealthLevel
path_health sessions paths =
    if ltb 0 sessions && (paths == 0)
    then failed
    else if ltb paths sessions
    then degraded
    else ready

registry_health : RuntimeTransportHealth → RuntimeHealthLevel
registry_health h =
    if h.session_registry_healthy && h.listener_registry_healthy then ready else failed

module _ (c : Primitives) {F : Type 0} where
  -- Why the local peer may do nothing: the certificate is another peer's, or the peer is denied. The
  -- identity is the state's local peer, or the key of the running daemon.
  unfoldable pub local_policy_reason : DaemonState F → Bytes → Option Bytes
  local_policy_reason s identity =
      if s.membership.subject_peer_id != identity
      then some (
          text "authority subject "
          ++ (to_text c s.membership.subject_peer_id
              ++ (text " does not match runtime identity " ++ to_text c identity)))
      else deny_reason s s.local_peer_id

  -- The body of the loop over the listeners.
  unfoldable pub policed :
      DaemonState F → Option Bytes → RuntimeListenerSnapshot → RuntimeListenerSnapshot
  unfolding decided
  policed s local l = if l.state == RuntimeListenerState.failed then l else elim local [
    | some reason ↦ record l { state = RuntimeListenerState.suppressed; state_reason = some reason }
    | none ↦ decided l (explain_local_protocol_policy c s l.protocol)
  ]

  unfoldable pub runtime_listeners :
      DaemonState F → List RuntimeListenerSnapshot → List RuntimeListenerSnapshot
  runtime_listeners s listeners = map (policed s (local_policy_reason s s.local_peer_id)) listeners

  -- The report, of the state, the transport's health, the policed listeners and how many paths have a session.
  unfoldable pub health_report :
      DaemonState F
      → RuntimeTransportHealth
      → List RuntimeListenerSnapshot
      → ℕ
      → RuntimeHealthReport
  unfolding authority_health path_health registry_health
  health_report s h listeners active_paths =
      let mismatch = s.membership.subject_peer_id != s.local_peer_id in
      let deny = deny_reason s s.local_peer_id in
      let authority = authority_health mismatch deny in
      let registry = registry_health h in
      let paths = path_health h.active_sessions active_paths in
      let reconnect = runtime_reconnect_health_level h.reconnect_state in
      record {
        daemon_readiness = runtime_rollup_health (authority ∷ registry ∷ paths ∷ reconnect ∷ []);
        authority_sync_health = authority;
        runtime_registry_health = registry;
        path_manager_health = paths;
        reconnect_subsystem_health = reconnect;
        authority_subject_status = if mismatch then text "mismatched" else text "matched";
        authority_deny_reason = deny;
        active_sessions = h.active_sessions;
        active_paths = active_paths;
        active_listeners =
            count (λ (l : RuntimeListenerSnapshot). l.state == RuntimeListenerState.active)
              listeners;
        reconnect_state = h.reconnect_state;
        reconnect_attempt_count = h.reconnect_attempt_count;
        reconnect_next_attempt_unix_secs = h.reconnect_next_attempt_unix_secs;
        reconnect_suppression_count = h.reconnect_suppression_count;
        runtime_event_buffer_depth = h.event_buffer_depth;
      }
