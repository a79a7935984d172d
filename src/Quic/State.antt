-- ===== src/Quic/State.antt =====
-- `QuicTransportAdapter` of crates/quic/src/lib.rs, its event buffer and the labels of its states.
use quipnet.Base.{
  ℕ, Bool, true, Option, none, some, List, [], ◌∷◌, ◌++◌, Bytes, text, length, ltb, if◌then◌else◌,
  reverse, take, min, max,
}
use quipnet.Base.Maps.{Map}
use quipnet.Model.{NetworkId, TrafficClass, control, interactive, bulk, background, PathKind, relay}
use quipnet.Crypto.{IdentityKeypair}
use quipnet.Transport.{
  RuntimeSessionState, pending, connecting, active, degraded, migrating, reconciling, closing,
  closed, failed, SessionClosureReason, operator_requested, local_runtime_failure, remote_failure,
  policy_rejected, path_exhaustion, daemon_shutdown, SessionSnapshot, ReconnectSuppression,
  RuntimeListenerSnapshot, RuntimeReconnectAttempt, RuntimeReconnectAttemptState, backing_off,
  RuntimeEvent, Value, null, str,
}
use quipnet.Transport

-- `RuntimeSessionRecord`.
pub record SessionRecord : Type 0 where
  pub snapshot : SessionSnapshot
  pub alpn_protocol : Option Bytes

pub record Adapter : Type 0 where
  pub supports_datagrams : Bool
  pub supports_path_migration : Bool
  pub runtime_instance_id : Bytes
  pub network_id : Option NetworkId
  pub local_identity : Option IdentityKeypair
  pub runtime_sessions : Map SessionRecord
  pub terminal_sessions : List SessionRecord
  pub runtime_listeners : Map RuntimeListenerSnapshot
  pub runtime_events : List RuntimeEvent
  pub reconnect_suppressions : List ReconnectSuppression
  pub reconnect_attempts : List RuntimeReconnectAttempt

abbrev pub max_terminal_sessions : ℕ
max_terminal_sessions = 32

abbrev pub max_events : ℕ
max_events = 256

-- `default`, with the random id that it draws.
unfoldable pub default_adapter : Bytes → Adapter
default_adapter runtime_instance_id = record {
  supports_datagrams = true;
  supports_path_migration = true;
  runtime_instance_id = runtime_instance_id;
  network_id = none;
  local_identity = none;
  runtime_sessions = [];
  terminal_sessions = [];
  runtime_listeners = [];
  runtime_events = [];
  reconnect_suppressions = [];
  reconnect_attempts = [];
}

unfoldable pub with_identity : Bytes → NetworkId → IdentityKeypair → Adapter
with_identity runtime_instance_id network_id local_identity =
    record (default_adapter runtime_instance_id) {
      network_id = some network_id;
      local_identity = some local_identity;
    }

-- `while list.len() > n { list.pop_front(); }`.
unfoldable pub pop_front_over {ℓ} : {A : Type ℓ} → ℕ → List A → List A
pop_front_over n [] = []
pop_front_over n (x ∷ xs) =
    let rest = pop_front_over n xs in if ltb n (length (x ∷ xs)) then rest else x ∷ xs

-- `emit_runtime_event`.
unfoldable pub emit : Adapter → RuntimeEvent → Adapter
emit a e = record a { runtime_events = pop_front_over max_events (a.runtime_events ++ e ∷ []) }

-- `recent_events`: at least one is asked for, and the oldest comes first.
unfoldable pub recent_events : Adapter → ℕ → List RuntimeEvent
recent_events a limit =
    reverse (take (min (max limit 1) (length a.runtime_events)) (reverse a.runtime_events))

abbrev pub attempt_state_label : RuntimeReconnectAttemptState → Bytes
attempt_state_label backing_off = text "backing_off"
attempt_state_label Transport.RuntimeReconnectAttemptState.failed = text "failed"

abbrev pub event_type_for_state : RuntimeSessionState → Bytes
event_type_for_state closing = text "session.closing"
event_type_for_state RuntimeSessionState.failed = text "session.failed"
event_type_for_state _ = text "session.state_changed"

abbrev pub state_label : RuntimeSessionState → Bytes
state_label pending = text "pending"
state_label connecting = text "connecting"
state_label RuntimeSessionState.active = text "active"
state_label degraded = text "degraded"
state_label migrating = text "migrating"
state_label reconciling = text "reconciling"
state_label closing = text "closing"
state_label closed = text "closed"
state_label RuntimeSessionState.failed = text "failed"

abbrev pub closure_label : SessionClosureReason → Bytes
closure_label operator_requested = text "operator_requested"
closure_label local_runtime_failure = text "local_runtime_failure"
closure_label remote_failure = text "remote_failure"
closure_label policy_rejected = text "policy_rejected"
closure_label path_exhaustion = text "path_exhaustion"
closure_label daemon_shutdown = text "daemon_shutdown"

abbrev pub path_class_label : PathKind → Bytes
path_class_label relay = text "relay"
path_class_label _ = text "direct"

abbrev pub class_label : TrafficClass → Bytes
class_label control = text "control"
class_label interactive = text "interactive"
class_label bulk = text "bulk"
class_label background = text "background"

-- An `Option` of a text in the details of an event.
abbrev pub opt_str : Option Bytes → Value
opt_str none = null
opt_str (some s) = str s

abbrev pub opt_closure : Option SessionClosureReason → Value
opt_closure none = null
opt_closure (some r) = str (closure_label r)
