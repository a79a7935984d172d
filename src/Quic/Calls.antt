-- ===== src/Quic/Calls.antt =====
-- `connect`, `migrate` and `close_session` of the transport adapter in crates/quic/src/lib.rs.
use quipnet.Base.{ℕ, Option, none, some, [], ◌∷◌, ◌++◌, Bytes, text, Result, ok, err, find}
use quipnet.Base.Maps.{get, remove}
use quipnet.Crypto.{Primitives}
use quipnet.Identity.{SessionCredentialUnsigned}
use quipnet.Model.{relay}
use quipnet.Routing.{kind_eq}
use quipnet.Base.{◌==◌, if◌then◌else◌}
use quipnet.Transport.{
  TransportError, invalid_route, policy_denied, RoutePlan, migrating, closing, closed,
  SessionSnapshot, SessionClosureReason, str,
}
use quipnet.Quic.State.{SessionRecord, Adapter, emit, path_class_label}
use quipnet.Quic.Reconnect.{Target, suppresses, suppressed_event}
use quipnet.Quic.Plans.{RelayControl, Draw, session_snapshot_for_route}
use quipnet.Quic.Sessions.{
  snapshot_of, update_session_state, release, close_relay_transport_session, upsert_runtime_session,
  record_terminal_session, change_event, session_event, or_else_held,
}

abbrev pub route_target : RoutePlan → Target
route_target route = record { peer = route.peer; protocol = route.protocol; class = route.class }

-- The terminal record of a session that was closed.
unfoldable pub ended : ℕ → SessionRecord → SessionRecord
ended now r = record r {
  snapshot = record (r.snapshot) { state = closed; last_activity_unix_secs = now };
}

-- The new snapshot under the id and the creation time of the existing session.
unfoldable pub continued : ℕ → SessionSnapshot → SessionSnapshot → SessionSnapshot
continued now existing fresh = record fresh {
  session_id = existing.session_id;
  created_at_unix_secs = existing.created_at_unix_secs;
  last_activity_unix_secs = now;
}

-- The reasons that an existing session has.
abbrev pub held_closure : Option SessionSnapshot → Option SessionClosureReason
held_closure none = none
held_closure (some s) = s.closure_reason

abbrev pub held_reason : Option SessionSnapshot → Option Bytes
held_reason none = none
held_reason (some s) = s.state_reason

module _ (c : Primitives) (json : SessionCredentialUnsigned → Bytes) {W : Type 0}
    (relays : RelayControl W) where
  -- `connect`; the handle is the snapshot and its protocol.
  unfoldable pub connect :
      Draw → W → Adapter → RoutePlan → (W × Adapter) × Result TransportError SessionRecord
  connect d w a route = elim (find (suppresses (route_target route)) a.reconnect_suppressions) [
    | some s ↦ (
      (w, emit a (suppressed_event c (route_target route) s.reason)),
      err (policy_denied (text "reconnect suppressed: " ++ s.reason)),
    )
    | none ↦
        let (v, answer) = session_snapshot_for_route c json relays d w a route in
        elim answer [
          | err e ↦ ((v, a), err e)
          | ok session ↦
              let r : SessionRecord = record {
                snapshot = session;
                alpn_protocol = route.protocol;
              } in
              let (state, upserted) = upsert_runtime_session c relays v a r in
              (state, elim upserted [ err e ↦ err e | ok _ ↦ ok r ])
        ]
  ]

  -- `migrate` after the new snapshot is made: the release of the relay, and the new record.
  unfoldable pub switch_path :
      ℕ
      → W
      → Adapter
      → RoutePlan
      → SessionSnapshot
      → SessionSnapshot
      → (W × Adapter) × Result TransportError SessionSnapshot
  unfolding session_event
  switch_path now w a route existing fresh =
      let migrated = continued now existing fresh in
      let (v, released) = release c relays w existing migrated in
      elim released [
        | err e ↦ ((v, a), err e)
        | ok _ ↦
            let ((u, b), upserted) =
              upsert_runtime_session c relays v a
                (record { snapshot = migrated; alpn_protocol = route.protocol }) in
            elim upserted [
              | err e ↦ ((u, b), err e)
              | ok _ ↦ (
                (
                  u,
                  emit b (
                      session_event c (text "path.migration_completed") migrated (
                        (text "prior_path_class", str (path_class_label existing.path_kind))
                        ∷ (text "next_path_class", str (path_class_label migrated.path_kind))
                        ∷ [])),
                ),
                ok migrated,
              )
            ]
      ]

  -- `migrate` of the session with the id `id`.
  unfoldable pub migrate :
      Draw → W → Adapter → Bytes → RoutePlan → (W × Adapter) × Result TransportError SessionSnapshot
  migrate d w a id route =
      let b =
        (update_session_state c d.now a id migrating none
          (some (text "daemon requested path migration"))).0 in
      elim (snapshot_of b id) [
        | none ↦ ((w, b), err (invalid_route (text "session is not active in runtime registry")))
        | some existing ↦
            let (v, made) = session_snapshot_for_route c json relays d w b route in
            elim made [
              | err e ↦ ((v, b), err e)
              | ok fresh ↦ switch_path d.now v b route existing fresh
            ]
      ]

  -- The release of the relay in `close_session`.
  unfoldable pub hang_up : W → SessionSnapshot → W × Result TransportError (Unit {0})
  hang_up w s =
      if s.path_kind == relay
      then close_relay_transport_session c relays w s.relay_control_endpoint s.transport_session_id
      else (w, ok tt)

  -- `close_session` from the removal of the record on.
  unfoldable pub finish : ℕ → W → Adapter → Bytes → (W × Adapter) × Result TransportError (Unit {0})
  unfolding change_event
  finish now w a id = elim (get id a.runtime_sessions) [
    | none ↦ ((w, a), ok tt)
    | some live ↦
        let b = record a { runtime_sessions = remove id a.runtime_sessions } in
        let (v, hung) = hang_up w live.snapshot in
        elim hung [
          | err e ↦ ((v, b), err e)
          | ok _ ↦ (
            (
              v,
              emit (record_terminal_session (ended now live) b)
                  (change_event c (text "session.closed") (ended now live).snapshot closing closed),
            ),
            ok tt,
          )
        ]
  ]

  -- `close_session` of a snapshot.
  unfoldable pub close_session :
      ℕ → W → Adapter → SessionSnapshot → (W × Adapter) × Result TransportError (Unit {0})
  close_session now w a s =
      let held = snapshot_of a s.session_id in
      let closure_reason = or_else_held (held_closure held) s.closure_reason in
      let state_reason = or_else_held (held_reason held) s.state_reason in
      finish now w (update_session_state c now a s.session_id closing closure_reason state_reason).0
        s.session_id
