-- ===== src/Quic/Listeners.antt =====
-- The listeners and the health of the transport adapter in crates/quic/src/lib.rs.
use quipnet.Base.{
  ℕ, Bool, true, false, Option, none, some, List, [], ◌∷◌, ◌++◌, map, take, Bytes, text,
  if◌then◌else◌, ltb, any, keep, count, length, min,
}
use quipnet.Base.Maps.{get, insert, update, values}
use quipnet.Crypto.{Primitives, hash_bytes}
use quipnet.Relay.Paths.{hex_session_id}
use quipnet.Transport.{
  BindSpec, RuntimeListenerState, RuntimeListenerSnapshot, RuntimeReconnectState,
  RuntimeTransportHealth, RuntimeReconnectAttempt, RuntimeReconnectAttemptState, backing_off,
}
use quipnet.Transport
use quipnet.Quic.State.{Adapter}

abbrev flag : Bool → Bytes
flag true = text "1"
flag false = text "0"

abbrev bool_text : Bool → Bytes
bool_text true = text "true"
bool_text false = text "false"

module _ (c : Primitives) where
  -- With the text of the time in nanoseconds.
  unfoldable pub runtime_listener_id : Bytes → BindSpec → Bytes → Bytes
  runtime_listener_id instance_id bind nanos =
      text "lst-"
      ++ take 16 (
          hex_session_id
            (hash_bytes c (instance_id ++ (bind.protocol ++ (flag bind.advertise ++ nanos)))))

  unfoldable pub listener_for : ℕ → Bytes → Adapter → BindSpec → RuntimeListenerSnapshot
  listener_for now nanos a bind = record {
    listener_id = runtime_listener_id a.runtime_instance_id bind nanos;
    transport = text "quic";
    bind_summary =
        text "protocol="
        ++ (bind.protocol
            ++ (text " advertise="
                ++ (bool_text bind.advertise
                    ++ (text " runtime_instance=" ++ a.runtime_instance_id))));
    protocol = bind.protocol;
    advertise = bind.advertise;
    state = Transport.RuntimeListenerState.active;
    state_reason = none;
    started_at_unix_secs = now;
  }

  -- `listen`; the handle is the protocol and the flag of the request.
  unfoldable pub listen : ℕ → Bytes → Adapter → BindSpec → Adapter
  listen now nanos a bind =
      let l = listener_for now nanos a bind in
      record a { runtime_listeners = insert l.listener_id l a.runtime_listeners }

abbrev pub with_listener_state :
    RuntimeListenerState → Option Bytes → RuntimeListenerSnapshot → RuntimeListenerSnapshot
with_listener_state state state_reason l = record l { state = state; state_reason = state_reason }

unfoldable pub update_listener_state :
    Adapter → Bytes → RuntimeListenerState → Option Bytes → Adapter × Option RuntimeListenerSnapshot
update_listener_state a id state state_reason = elim (get id a.runtime_listeners) [
  | none ↦ (a, none)
  | some l ↦ (
    record a {
      runtime_listeners = update id (with_listener_state state state_reason) a.runtime_listeners;
    },
    some (with_listener_state state state_reason l),
  )
]

abbrev state_is_active : RuntimeListenerState → Bool
state_is_active Transport.RuntimeListenerState.active = true
state_is_active _ = false

abbrev listens : RuntimeListenerSnapshot → Bool
listens l = state_is_active l.state

abbrev state_backs_off : RuntimeReconnectAttemptState → Bool
state_backs_off backing_off = true
state_backs_off Transport.RuntimeReconnectAttemptState.failed = false

abbrev pub backs_off : RuntimeReconnectAttempt → Bool
backs_off a = state_backs_off a.state

abbrev pub has_failed : RuntimeReconnectAttempt → Bool
has_failed a = elim (state_backs_off a.state) [ true ↦ false | false ↦ true ]

-- `Iterator::min`.
unfoldable pub minimum : List ℕ → Option ℕ
minimum [] = none
minimum (n ∷ ns) = elim (minimum ns) [ none ↦ some n | some m ↦ some (min n m) ]

unfoldable pub reconnect_state : Adapter → RuntimeReconnectState
reconnect_state a =
    if ltb 0 (length a.reconnect_suppressions)
    then Transport.RuntimeReconnectState.suppressed
    else if ltb 0 (count backs_off a.reconnect_attempts)
    then Transport.RuntimeReconnectState.active
    else if any has_failed a.reconnect_attempts
    then Transport.RuntimeReconnectState.failed
    else Transport.RuntimeReconnectState.idle

unfoldable pub transport_health : Adapter → RuntimeTransportHealth
unfolding reconnect_state minimum
transport_health a = record {
  active_sessions = length a.runtime_sessions;
  active_listeners = count listens (values a.runtime_listeners);
  reconnect_state = reconnect_state a;
  reconnect_attempt_count = count backs_off a.reconnect_attempts;
  reconnect_next_attempt_unix_secs = minimum (
      map (λ (r : RuntimeReconnectAttempt). r.next_attempt_unix_secs)
        (keep backs_off a.reconnect_attempts));
  reconnect_suppression_count = length a.reconnect_suppressions;
  event_buffer_depth = length a.runtime_events;
  session_registry_healthy = true;
  listener_registry_healthy = true;
}
