-- ===== src/Quic/Sessions.antt =====
-- The sessions of the transport adapter in crates/quic/src/lib.rs: connect, changes of state,
-- migration and close. A relay is asked through `RelayControl`, whose state is passed along.
use quipnet.Base.{
  ℕ, Bool, ◌&&◌, ◌||◌, Option, none, some, List, [], ◌∷◌, ◌++◌, Bytes, text, ◌==◌, ◌!=◌,
  if◌then◌else◌, Result, ok, err, keep, bytes_eq, option_eq,
}
use quipnet.Base.Maps.{get, insert, update}
use quipnet.Model.{relay}
use quipnet.PeerText.{to_text}
use quipnet.Crypto.{Primitives}
use quipnet.Routing.{kind_eq}
use quipnet.Relay.{error_text}
use quipnet.Relay.Paths.{hex_session_id}
use quipnet.Transport.{
  TransportError, invalid_route, relay_rejected, RouteSource, observed, bootstrap, authority_relay,
  RuntimeSessionState, SessionClosureReason, SessionSnapshot, RuntimeEvent, Value, str,
}
use quipnet.Quic.State.{
  SessionRecord, Adapter, max_terminal_sessions, pop_front_over, emit, event_type_for_state,
  state_label, path_class_label, opt_str, opt_closure,
}
use quipnet.Quic.Plans.{RelayControl}

abbrev pub or_else_held {ℓ} : {A : Type ℓ} → Option A → Option A → Option A
or_else_held none b = b
or_else_held (some a) b = some a

-- `{:?}` of a source.
abbrev source_debug : RouteSource → Bytes
source_debug observed = text "Observed"
source_debug bootstrap = text "Bootstrap"
source_debug authority_relay = text "AuthorityRelay"

-- The snapshot of `session_snapshot`.
unfoldable pub snapshot_of : Adapter → Bytes → Option SessionSnapshot
snapshot_of a id = elim (get id a.runtime_sessions) [ none ↦ none | some r ↦ some r.snapshot ]

-- The changes that `update_session_state` makes to a record.
unfoldable pub with_state :
    ℕ
    → RuntimeSessionState
    → Option SessionClosureReason
    → Option Bytes
    → SessionRecord
    → SessionRecord
with_state now state closure_reason state_reason r = record r {
  snapshot = record (r.snapshot) {
    state = state;
    closure_reason = closure_reason;
    state_reason = state_reason;
    last_activity_unix_secs = now;
  };
}

-- `record_terminal_session`.
unfoldable pub record_terminal_session : SessionRecord → Adapter → Adapter
record_terminal_session r a = record a {
  terminal_sessions = pop_front_over max_terminal_sessions (
      keep (λ (e : SessionRecord). e.snapshot.session_id != r.snapshot.session_id)
        a.terminal_sessions
      ++ r ∷ []);
}

-- A session on a relay has to be released when its record is replaced by one that is not on the
-- same session of the same relay.
unfoldable pub leaves_relay : SessionSnapshot → SessionSnapshot → Bool
leaves_relay previous next =
    (previous.path_kind == relay)
    && ((previous.transport_session_id != next.transport_session_id)
        || (previous.relay_control_endpoint != next.relay_control_endpoint)
        || (next.path_kind != relay))

module _ (c : Primitives) where
  unfoldable pub session_event : Bytes → SessionSnapshot → List (Bytes × Value) → RuntimeEvent
  session_event event_type s details = record {
    event_type = event_type;
    subject_kind = text "session";
    subject_id = hex_session_id s.session_id;
    details = (text "peer_id", str (to_text c s.peer)) ∷ details;
  }

  -- The details of `session.closed` and of changes of state.
  unfoldable pub change_event :
      Bytes → SessionSnapshot → RuntimeSessionState → RuntimeSessionState → RuntimeEvent
  unfolding session_event
  change_event event_type s prior next = session_event event_type s (
      (text "prior_state", str (state_label prior))
      ∷ (text "next_state", str (state_label next))
      ∷ (text "closure_reason", opt_closure s.closure_reason)
      ∷ (text "reason", opt_str s.state_reason)
      ∷ [])

  -- `update_session_state`.
  unfoldable pub update_session_state :
      ℕ
      → Adapter
      → Bytes
      → RuntimeSessionState
      → Option SessionClosureReason
      → Option Bytes
      → Adapter × Option SessionSnapshot
  unfolding change_event
  update_session_state now a id state closure_reason state_reason =
      elim (get id a.runtime_sessions) [
        | none ↦ (a, none)
        | some r ↦
            let s = (with_state now state closure_reason state_reason r).snapshot in
            (
              emit
                  (record a {
                    runtime_sessions =
                        update id (with_state now state closure_reason state_reason)
                          a.runtime_sessions;
                  })
                  (change_event (event_type_for_state state) s r.snapshot.state state),
              some s,
            )
      ]

  module _ {W : Type 0} (relays : RelayControl W) where
    -- `close_relay_transport_session`.
    unfoldable pub close_relay_transport_session :
        W → Option Bytes → Bytes → W × Result TransportError (Unit {0})
    close_relay_transport_session w none id =
        (w, err (invalid_route (text "relay session is missing relay control endpoint")))
    close_relay_transport_session w (some endpoint) id =
        let (v, answer) = relays.close_at w endpoint id (text "path migrated") in
        (v, elim answer [ err e ↦ err (relay_rejected (error_text c e)) | ok _ ↦ ok tt ])

    -- The release of the previous session where `leaves_relay` asks for it.
    unfoldable pub release :
        W → SessionSnapshot → SessionSnapshot → W × Result TransportError (Unit {0})
    release w previous next =
        if leaves_relay previous next
        then close_relay_transport_session w previous.relay_control_endpoint
            previous.transport_session_id
        else (w, ok tt)

    replaced_event : SessionSnapshot → SessionSnapshot → RuntimeEvent
    unfolding session_event
    replaced_event previous s = session_event (text "session.state_changed") s (
        (text "prior_state", str (state_label previous.state))
        ∷ (text "next_state", str (state_label s.state))
        ∷ (text "path_class", str (path_class_label s.path_kind))
        ∷ [])

    created_event : SessionSnapshot → RuntimeEvent
    unfolding session_event
    created_event s = session_event (text "session.created") s (
        (text "next_state", str (state_label s.state))
        ∷ (text "path_class", str (path_class_label s.path_kind))
        ∷ [])

    selected_event : SessionSnapshot → RuntimeEvent
    unfolding session_event
    selected_event s = session_event (text "path.selected") s (
        (text "path_class", str (path_class_label s.path_kind))
        ∷ (text "source", str (source_debug s.source))
        ∷ [])

    -- `upsert_runtime_session`.
    unfoldable pub upsert_runtime_session :
        W → Adapter → SessionRecord → (W × Adapter) × Result TransportError (Unit {0})
    unfolding replaced_event created_event selected_event
    upsert_runtime_session w a r =
        let b = record a { runtime_sessions = insert r.snapshot.session_id r a.runtime_sessions } in
        elim (get r.snapshot.session_id a.runtime_sessions) [
          | none ↦
              ((w, emit (emit b (created_event r.snapshot)) (selected_event r.snapshot)), ok tt)
          | some previous ↦
              let (v, answer) = release w previous.snapshot r.snapshot in
              elim answer [
                | err e ↦ ((v, b), err e)
                | ok _ ↦ ((v, emit b (replaced_event previous.snapshot r.snapshot)), ok tt)
              ]
        ]
