-- ===== src/Quic/Parties.antt =====
-- The peers and protocols of the sessions in the adapter of crates/quic/src/lib.rs: they come from the
-- routes along which it connects and migrates.
use quipnet.Base.{
  ℕ, ◌≡◌, sym, ap, ◌∙◌, inl, inr, Bool-cases, Option, none, some, Bytes, ◌==◌, text, find, arith,
  bytes_eq, Option-cases, Result-cases, subst,
}
use quipnet.Base.Maps.{
  Map, get, insert, remove, update, get-insert, get-remove, get-update_self, get-update_ne,
  get-update_absent,
}
use quipnet.Crypto.{Primitives}
use quipnet.Identity.{SessionCredentialUnsigned}
use quipnet.Model.{PeerId, ProtocolId}
use quipnet.Transport.{
  SessionSnapshot, RoutePlan, RuntimeSessionState, SessionClosureReason, RuntimeListenerState,
  migrating, closing,
}
use quipnet.Quic.State.{SessionRecord, Adapter, emit}
use quipnet.Quic.Reconnect.{Target, suppresses, clear_reconnect_suppression}
use quipnet.Quic.Plans.{RelayControl, Draw, session_snapshot_for_route}
use quipnet.Quic.Planned.{Follows, made-Follows}
use quipnet.Quic.Sessions.{
  snapshot_of, with_state, update_session_state, release, upsert_runtime_session,
  record_terminal_session,
}
use quipnet.Quic.Calls.{
  connect, migrate, close_session, finish, switch_path, hang_up, continued, route_target,
}
use quipnet.Quic.Listeners.{update_listener_state}

module _ (Q : Bytes → PeerId → Option ProtocolId → Type 0) where
  -- The peer and the protocol of every session satisfy `Q` under its id.
  abbrev pub Parties : Map SessionRecord → Type 0
  Parties m =
      (id : Bytes) (r : SessionRecord)
      → get id m ≡ some r
      → Q id r.snapshot.peer r.snapshot.protocol

  -- A session with this peer and protocol may stand under any id.
  abbrev pub Welcomes : PeerId → Option ProtocolId → Type 0
  Welcomes peer protocol = (id : Bytes) → Q id peer protocol

  insert-Parties :
      (k : Bytes) (r : SessionRecord) (m : Map SessionRecord)
      → Welcomes r.snapshot.peer r.snapshot.protocol
      → Parties m
      → Parties (insert k r m)
  insert-Parties k r m w h j q e = elim (Bool-cases (k == j)) [
    | inl t ↦
        let same : r ≡ q = ground (arith, get-insert k j r m, t, e) in
        subst (λ x. Q j x.snapshot.peer x.snapshot.protocol) same (w j)
    | inr f ↦ h j q (ground (arith, get-insert k j r m, f, e))
  ]

  remove-Parties : (k : Bytes) (m : Map SessionRecord) → Parties m → Parties (remove k m)
  remove-Parties k m h j q e = h j q (ground (arith, get-remove k j m, e))

  update-Parties :
      (now : ℕ) (k : Bytes) (state : RuntimeSessionState) (closure : Option SessionClosureReason)
      (reason : Option Bytes) (m : Map SessionRecord)
      → Parties m
      → Parties (update k (with_state now state closure reason) m)
  unfolding with_state
  update-Parties now k state closure reason m h j q e =
      let f = with_state now state closure reason in
      elim (bytes_eq.dec k j) [
        | yes same ↦ elim (Option-cases (get k m)) [
          | inl n ↦ h j q (sym (ap (get j) (get-update_absent k f m n)) ∙ e)
          | inr (r, n) ↦
              let new : f r ≡ q = ground (arith, get-update_self k f r m n, same, e) in
              subst (λ x. Q j x.snapshot.peer x.snapshot.protocol) new
                (h j r (sym (ap (λ i. get i m) same) ∙ n))
        ]
        | no other ↦ h j q (sym (get-update_ne k f j m other) ∙ e)
      ]

  module _ (c : Primitives) (json : SessionCredentialUnsigned → Bytes) {W : Type 0}
      (relays : RelayControl W) where
    pub updates-Parties :
        (now : ℕ) (a : Adapter) (id : Bytes) (state : RuntimeSessionState)
        (closure : Option SessionClosureReason) (reason : Option Bytes)
        → Parties a.runtime_sessions
        → Parties (update_session_state c now a id state closure reason).0.runtime_sessions
    unfolding update_session_state emit
    updates-Parties now a id state closure reason h =
        elim (Option-cases (get id a.runtime_sessions)) [
          | inl e ↦ rw (e, update_session_state) h
          | inr (r, e) ↦
              rw (e, update_session_state)
                (update-Parties now id state closure reason a.runtime_sessions h)
        ]

    upsert-Parties :
        (w : W) (a : Adapter) (r : SessionRecord)
        → Welcomes r.snapshot.peer r.snapshot.protocol
        → Parties a.runtime_sessions
        → Parties (upsert_runtime_session c relays w a r).0.1.runtime_sessions
    unfolding upsert_runtime_session emit
    upsert-Parties w a r q h =
        let inserted = insert-Parties r.snapshot.session_id r a.runtime_sessions q h in
        elim (Option-cases (get r.snapshot.session_id a.runtime_sessions)) [
          | inl e ↦ rw (e, upsert_runtime_session) inserted
          | inr (p, e) ↦
              rw (e, upsert_runtime_session)
                (elim (Result-cases (release c relays w p.snapshot r.snapshot).1) [
                  | inl (_, f) ↦ rw f inserted
                  | inr (_, f) ↦ rw f inserted
                ])
        ]

    -- A snapshot for a route has the route's peer and protocol.
    made-Welcomes :
        (route : RoutePlan) (s : SessionSnapshot)
        → Follows route s
        → Welcomes route.peer route.protocol
        → Welcomes s.peer s.protocol
    made-Welcomes route s k q = rw (k.peer, k.protocol) q

    pub connect-Parties :
        (d : Draw) (w : W) (a : Adapter) (route : RoutePlan)
        → Welcomes route.peer route.protocol
        → Parties a.runtime_sessions
        → Parties (connect c json relays d w a route).0.1.runtime_sessions
    unfolding connect emit
    connect-Parties d w a route q h =
        elim (Option-cases (find (suppresses (route_target route)) a.reconnect_suppressions)) [
          | inr (s, e) ↦ rw (e, connect) h
          | inl e ↦
              rw (e, connect)
                (elim (Result-cases (session_snapshot_for_route c json relays d w a route).1) [
                  | inr (_, f) ↦ rw f h
                  | inl (s, f) ↦ rw f (
                      upsert-Parties _ a (record { snapshot = s; alpn_protocol = route.protocol })
                        (made-Welcomes route s (made-Follows c json relays d w a route s f) q) h)
                ])
        ]

    switch_path-Parties :
        (now : ℕ) (w : W) (a : Adapter) (route : RoutePlan) (existing fresh : SessionSnapshot)
        → Welcomes fresh.peer fresh.protocol
        → Parties a.runtime_sessions
        → Parties (switch_path c json relays now w a route existing fresh).0.1.runtime_sessions
    unfolding switch_path continued emit
    switch_path-Parties now w a route existing fresh q h =
        let migrated = continued now existing fresh in
        let v = (release c relays w existing migrated).0 in
        let r : SessionRecord = record { snapshot = migrated; alpn_protocol = route.protocol } in
        let kept : Parties (upsert_runtime_session c relays v a r).0.1.runtime_sessions =
          upsert-Parties v a r q h in
        elim (Result-cases (release c relays w existing migrated).1) [
          | inr (_, f) ↦ rw (f, switch_path) h
          | inl (_, f) ↦
              rw (f, switch_path)
                (elim (Result-cases (upsert_runtime_session c relays v a r).1) [
                  | inr (_, g) ↦ rw g kept
                  | inl (_, g) ↦ rw g kept
                ])
        ]

    pub migrate-Parties :
        (d : Draw) (w : W) (a : Adapter) (id : Bytes) (route : RoutePlan)
        → Welcomes route.peer route.protocol
        → Parties a.runtime_sessions
        → Parties (migrate c json relays d w a id route).0.1.runtime_sessions
    unfolding migrate
    migrate-Parties d w a id route q h =
        let reason = some (text "daemon requested path migration") in
        let b : Adapter = (update_session_state c d.now a id migrating none reason).0 in
        let k : Parties b.runtime_sessions = updates-Parties d.now a id migrating none reason h in
        elim (Option-cases (snapshot_of b id)) [
          | inl e ↦ rw (e, migrate) k
          | inr (existing, e) ↦
              rw (e, migrate)
                (elim (Result-cases (session_snapshot_for_route c json relays d w b route).1) [
                  | inr (_, f) ↦ rw f k
                  | inl (fresh, f) ↦ rw f (
                      switch_path-Parties d.now _ b route existing fresh
                        (made-Welcomes route fresh (made-Follows c json relays d w b route fresh f)
                          q)
                        k)
                ])
        ]

    finish-Parties :
        (now : ℕ) (w : W) (a : Adapter) (id : Bytes)
        → Parties a.runtime_sessions
        → Parties (finish c json relays now w a id).0.1.runtime_sessions
    unfolding finish record_terminal_session emit
    finish-Parties now w a id h = elim (Option-cases (get id a.runtime_sessions)) [
      | inl e ↦ rw (e, finish) h
      | inr (live, e) ↦
          let gone : Parties (remove id a.runtime_sessions) =
            remove-Parties id a.runtime_sessions h in
          rw (e, finish)
            (elim (Result-cases (hang_up c json relays w live.snapshot).1) [
              | inr (_, f) ↦ rw f gone
              | inl (_, f) ↦ rw f gone
            ])
    ]

    pub close_session-Parties :
        (now : ℕ) (w : W) (a : Adapter) (s : SessionSnapshot)
        → Parties a.runtime_sessions
        → Parties (close_session c json relays now w a s).0.1.runtime_sessions
    unfolding close_session
    close_session-Parties now w a s h =
        finish-Parties now w _ s.session_id (updates-Parties now a s.session_id closing _ _ h)

    pub unbars-Parties :
        (t : Target) (a : Adapter)
        → Parties a.runtime_sessions
        → Parties (clear_reconnect_suppression c t a).runtime_sessions
    unfolding clear_reconnect_suppression emit
    unbars-Parties t a h = elim (Option-cases (find (suppresses t) a.reconnect_suppressions)) [
      | inl e ↦ rw (e, clear_reconnect_suppression) h
      | inr (_, e) ↦ rw (e, clear_reconnect_suppression) h
    ]

    pub marks_listener-Parties :
        (a : Adapter) (id : Bytes) (state : RuntimeListenerState) (reason : Option Bytes)
        → Parties a.runtime_sessions
        → Parties (update_listener_state a id state reason).0.runtime_sessions
    unfolding update_listener_state
    marks_listener-Parties a id state reason h = elim (Option-cases (get id a.runtime_listeners)) [
      | inl e ↦ rw (e, update_listener_state) h
      | inr (_, e) ↦ rw (e, update_listener_state) h
    ]
