-- ===== src/Transport.antt =====
-- crates/transport/src/lib.rs: routes, session snapshots and the runtime states of a transport.
use quipnet.Base.{ℕ, Bool, Option, List, Bytes, Result}
use quipnet.Model.{PeerId, ProtocolId, TrafficClass, PathKind}

pub data TransportError : Type 0 where
  unreachable protocol_rejected not_implemented : TransportError
  no_route : PeerId → TransportError
  policy_denied invalid_route relay_rejected : Bytes → TransportError

pub data RouteSource : Type 0 where
  observed bootstrap authority_relay : RouteSource

pub record RelayPlan : Type 0 where
  pub relay_peer : PeerId
  pub relay_endpoints : List Bytes
  pub relay_control_endpoint : Bytes
  pub destination_endpoints : List Bytes
  pub supports_datagrams : Bool
  pub supports_path_migration : Bool

pub record RoutePlan : Type 0 where
  pub local_peer : PeerId
  pub peer : PeerId
  pub protocol : Option ProtocolId
  pub class : TrafficClass
  pub path_kind : PathKind
  pub source : RouteSource
  pub remote_endpoints : List Bytes
  pub relay : Option RelayPlan

pub data RuntimeSessionState : Type 0 where
  pending connecting active degraded migrating reconciling closing closed failed :
      RuntimeSessionState

pub data SessionClosureReason : Type 0 where
  operator_requested local_runtime_failure remote_failure : SessionClosureReason
  policy_rejected path_exhaustion daemon_shutdown : SessionClosureReason

pub record SessionSnapshot : Type 0 where
  pub session_id : Bytes
  pub transport_session_id : Bytes
  pub relay_attempt_id : Option Bytes
  pub peer : PeerId
  pub protocol : Option ProtocolId
  pub class : TrafficClass
  pub path_kind : PathKind
  pub source : RouteSource
  pub remote_endpoint : Bytes
  pub relay_peer : Option PeerId
  pub relay_endpoint : Option Bytes
  pub relay_control_endpoint : Option Bytes
  pub datagrams_capable : Bool
  pub migration_capable : Bool
  pub state : RuntimeSessionState
  pub closure_reason : Option SessionClosureReason
  pub state_reason : Option Bytes
  pub created_at_unix_secs : ℕ
  pub last_activity_unix_secs : ℕ

pub record ReconnectSuppression : Type 0 where
  pub peer : PeerId
  pub protocol : Option ProtocolId
  pub class : TrafficClass
  pub reason : Bytes
  pub imposed_at_unix_secs : ℕ

pub data RuntimeListenerState : Type 0 where
  active failed suppressed : RuntimeListenerState

pub record BindSpec : Type 0 where
  pub protocol : ProtocolId
  pub advertise : Bool

pub record RuntimeListenerSnapshot : Type 0 where
  pub listener_id : Bytes
  pub transport : Bytes
  pub bind_summary : Bytes
  pub protocol : ProtocolId
  pub advertise : Bool
  pub state : RuntimeListenerState
  pub state_reason : Option Bytes
  pub started_at_unix_secs : ℕ

pub data RuntimeReconnectState : Type 0 where
  idle active suppressed failed : RuntimeReconnectState

pub record RuntimeTransportHealth : Type 0 where
  pub active_sessions : ℕ
  pub active_listeners : ℕ
  pub reconnect_state : RuntimeReconnectState
  pub reconnect_attempt_count : ℕ
  pub reconnect_next_attempt_unix_secs : Option ℕ
  pub reconnect_suppression_count : ℕ
  pub event_buffer_depth : ℕ
  pub session_registry_healthy : Bool
  pub listener_registry_healthy : Bool

pub data RuntimeReconnectAttemptState : Type 0 where
  backing_off failed : RuntimeReconnectAttemptState

pub record RuntimeReconnectAttempt : Type 0 where
  pub peer : PeerId
  pub protocol : Option ProtocolId
  pub class : TrafficClass
  pub state : RuntimeReconnectAttemptState
  pub reason : Bytes
  pub attempt_count : ℕ
  pub last_attempt_unix_secs : ℕ
  pub next_attempt_unix_secs : ℕ
  pub max_attempts : ℕ

-- A JSON value in the details of an event.
pub data Value : Type 0 where
  null : Value
  num : ℕ → Value
  flag : Bool → Value
  str : Bytes → Value

-- `RuntimeEvent`, without the id and the time that it takes from the clock and the constant
-- `truth_kind`.
pub record RuntimeEvent : Type 0 where
  pub event_type : Bytes
  pub subject_kind : Bytes
  pub subject_id : Bytes
  pub details : List (Bytes × Value)

-- `SessionLifecycleTransport` with the `connect` of `SecureTransport`, over the state `S` that a
-- transport keeps behind its locks. The connection of `connect` is its snapshot.
pub record LifecycleTransport (S : Type 0) : Type 0 where
  pub connect : RoutePlan → S → Result TransportError SessionSnapshot × S
  pub active_sessions : S → Result TransportError (List SessionSnapshot)
  pub session_snapshot : Bytes → S → Result TransportError (Option SessionSnapshot)
  pub recent_terminal_sessions : ℕ → S → Result TransportError (List SessionSnapshot)
  pub update_session_state :
      Bytes
      → RuntimeSessionState
      → Option SessionClosureReason
      → Option Bytes
      → S
      → Result TransportError (Option SessionSnapshot) × S
  pub recent_events : ℕ → S → Result TransportError (List RuntimeEvent)
  pub suppress_reconnect :
      PeerId → Option ProtocolId → TrafficClass → Bytes → S → Result TransportError (Unit {0}) × S
  pub clear_reconnect_suppression :
      PeerId → Option ProtocolId → TrafficClass → S → Result TransportError (Unit {0}) × S
  pub reconnect_suppressions : S → Result TransportError (List ReconnectSuppression)
  pub active_listeners : S → Result TransportError (List RuntimeListenerSnapshot)
  pub update_listener_state :
      Bytes
      → RuntimeListenerState
      → Option Bytes
      → S
      → Result TransportError (Option RuntimeListenerSnapshot) × S
  pub transport_health : S → Result TransportError RuntimeTransportHealth
  pub reconnect_attempts : S → Result TransportError (List RuntimeReconnectAttempt)
  pub record_runtime_event : RuntimeEvent → S → Result TransportError (Unit {0}) × S
  pub migrate : SessionSnapshot → RoutePlan → S → Result TransportError SessionSnapshot × S
  pub close_session : SessionSnapshot → S → Result TransportError (Unit {0}) × S
