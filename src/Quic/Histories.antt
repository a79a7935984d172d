-- ===== src/Quic/Histories.antt =====
-- The invariants of the transport adapter after every history of calls.
use quipnet.Base.{
  ℕ, ◌≡◌, ◌⊎◌, text, refl, inl, inr, Option, none, some, List, [], ◌∷◌, Bytes, find, arith,
  Option-cases, Result-cases,
}
use quipnet.Base.Maps.{get}
use quipnet.Crypto.{Primitives, IdentityKeypair}
use quipnet.Identity.{SessionCredentialUnsigned}
use quipnet.Model.{NetworkId}
use quipnet.Transport.{
  SessionSnapshot, RoutePlan, RuntimeListenerState, migrating, RuntimeReconnectAttemptState,
  backing_off, failed,
}
use quipnet.Quic.State.{SessionRecord, Adapter, default_adapter, with_identity}
use quipnet.Quic.Reconnect.{
  Target, Schedule, suppresses, is_for, schedule, schedule_reconnect, clear_reconnect_attempt,
  suppress_reconnect, clear_reconnect_suppression,
}
use quipnet.Quic.Plans.{RelayControl, Draw, session_snapshot_for_route}
use quipnet.Quic.Sessions.{update_session_state, release, upsert_runtime_session, snapshot_of}
use quipnet.Quic.Calls.{
  connect, migrate, close_session, finish, switch_path, hang_up, ended, continued, route_target,
}
use quipnet.Quic.Listeners.{listen, update_listener_state}
use quipnet.Quic.Runs.{
  Call, connects, migrates, closes, updates, schedules, clears, bars, unbars, listens_on,
  marks_listener, notes, step, run,
}
use quipnet.Quic.Registry.{
  Holds, emit-Holds, update_session_state-Holds, record_terminal_session-Holds, remove-Holds,
  upsert_runtime_session-Holds,
}

backing_or_failed : (s : RuntimeReconnectAttemptState) → (s ≡ backing_off) ⊎ (s ≡ failed)
backing_or_failed backing_off = inl refl
backing_or_failed failed = inr refl

module _ (c : Primitives) (json : SessionCredentialUnsigned → Bytes) {W : Type 0}
    (relays : RelayControl W) where
  connect-Holds :
      (d : Draw) (w : W) (a : Adapter) (route : RoutePlan)
      → Holds a
      → Holds (connect c json relays d w a route).0.1
  unfolding connect
  connect-Holds d w a route h =
      elim (Option-cases (find (suppresses (route_target route)) a.reconnect_suppressions)) [
        | inr (s, e) ↦ rw (e, connect) (emit-Holds _ _ h)
        | inl e ↦
            rw (e, connect)
              (elim (Result-cases (session_snapshot_for_route c json relays d w a route).1) [
                | inr (_, f) ↦ rw f h
                | inl (_, f) ↦ rw f (upsert_runtime_session-Holds c relays _ a _ h)
              ])
      ]

  switch_path-Holds :
      (now : ℕ) (w : W) (a : Adapter) (route : RoutePlan) (existing fresh : SessionSnapshot)
      → Holds a
      → Holds (switch_path c json relays now w a route existing fresh).0.1
  unfolding switch_path
  switch_path-Holds now w a route existing fresh h =
      let migrated = continued now existing fresh in
      let v = (release c relays w existing migrated).0 in
      let r : SessionRecord = record { snapshot = migrated; alpn_protocol = route.protocol } in
      let kept : Holds (upsert_runtime_session c relays v a r).0.1 =
        upsert_runtime_session-Holds c relays v a r h in
      elim (Result-cases (release c relays w existing migrated).1) [
        | inr (_, f) ↦ rw (f, switch_path) h
        | inl (_, f) ↦
            rw (f, switch_path)
              (elim (Result-cases (upsert_runtime_session c relays v a r).1) [
                | inr (_, g) ↦ rw g kept
                | inl (_, g) ↦ rw g (emit-Holds _ _ kept)
              ])
      ]

  finish-Holds :
      (now : ℕ) (w : W) (a : Adapter) (id : Bytes)
      → Holds a
      → Holds (finish c json relays now w a id).0.1
  unfolding finish ended
  finish-Holds now w a id h = elim (Option-cases (get id a.runtime_sessions)) [
    | inl e ↦ rw (e, finish) h
    | inr (live, e) ↦
        rw (e, finish)
          (elim (Result-cases (hang_up c json relays w live.snapshot).1) [
            | inr (_, f) ↦ rw f (remove-Holds id a h)
            | inl (_, f) ↦ rw f (
                emit-Holds _ _
                  (record_terminal_session-Holds (ended now live) _ refl (remove-Holds id a h)))
          ])
  ]

  migrate-Holds :
      (d : Draw) (w : W) (a : Adapter) (id : Bytes) (route : RoutePlan)
      → Holds a
      → Holds (migrate c json relays d w a id route).0.1
  unfolding migrate
  migrate-Holds d w a id route h =
      let b : Adapter =
        (update_session_state c d.now a id migrating none
          (some (text "daemon requested path migration"))).0 in
      let k : Holds b =
        update_session_state-Holds c d.now a id migrating none
          (some (text "daemon requested path migration")) h in
      elim (Option-cases (snapshot_of b id)) [
        | inl e ↦ rw (e, migrate) k
        | inr (existing, e) ↦
            rw (e, migrate)
              (elim (Result-cases (session_snapshot_for_route c json relays d w b route).1) [
                | inr (_, f) ↦ rw f k
                | inl (fresh, f) ↦ rw f (switch_path-Holds d.now _ b route existing fresh k)
              ])
      ]

  close_session-Holds :
      (now : ℕ) (w : W) (a : Adapter) (s : SessionSnapshot)
      → Holds a
      → Holds (close_session c json relays now w a s).0.1
  unfolding close_session
  close_session-Holds now w a s h =
      finish-Holds now w _ s.session_id (update_session_state-Holds c now a s.session_id _ _ _ h)

  schedule_reconnect-Holds :
      (now : ℕ) (t : Target) (s : Schedule) (a : Adapter)
      → Holds a
      → Holds (schedule_reconnect c now t s a).0
  unfolding schedule_reconnect
  schedule_reconnect-Holds now t s a h =
      elim (backing_or_failed (schedule now t s a.reconnect_attempts).1.state) [
        | inl e ↦ rw (e, schedule_reconnect) (emit-Holds _ _ h)
        | inr e ↦ rw (e, schedule_reconnect) (emit-Holds _ _ (emit-Holds _ _ h))
      ]

  clears-Holds :
      (t : Target) (outcome : Option Bytes) (a : Adapter)
      → Holds a
      → Holds (clear_reconnect_attempt c t outcome a)
  unfolding clear_reconnect_attempt
  clears-Holds t outcome a h = elim (Option-cases (find (is_for t) a.reconnect_attempts)) [
    | inl e ↦ rw (e, clear_reconnect_attempt) h
    | inr (_, e) ↦ rw (e, clear_reconnect_attempt) (emit-Holds _ _ h)
  ]

  unbars-Holds : (t : Target) (a : Adapter) → Holds a → Holds (clear_reconnect_suppression c t a)
  unfolding clear_reconnect_suppression
  unbars-Holds t a h = elim (Option-cases (find (suppresses t) a.reconnect_suppressions)) [
    | inl e ↦ rw (e, clear_reconnect_suppression) h
    | inr (_, e) ↦ rw (e, clear_reconnect_suppression) (emit-Holds _ _ h)
  ]

  marks_listener-Holds :
      (a : Adapter) (id : Bytes) (state : RuntimeListenerState) (reason : Option Bytes)
      → Holds a
      → Holds (update_listener_state a id state reason).0
  unfolding update_listener_state
  marks_listener-Holds a id state reason h = elim (Option-cases (get id a.runtime_listeners)) [
    | inl e ↦ rw (e, update_listener_state) h
    | inr (_, e) ↦ rw (e, update_listener_state) h
  ]

  pub step-Holds : (s : W × Adapter) (call : Call) → Holds s.1 → Holds (step c json relays s call).1
  unfolding step suppress_reconnect listen
  step-Holds (w, a) (connects d route) h = connect-Holds d w a route h
  step-Holds (w, a) (migrates d id route) h = migrate-Holds d w a id route h
  step-Holds (w, a) (closes now s) h = close_session-Holds now w a s h
  step-Holds (w, a) (updates now id state closure_reason state_reason) h =
      update_session_state-Holds c now a id state closure_reason state_reason h
  step-Holds (w, a) (schedules now t s) h = schedule_reconnect-Holds now t s a h
  step-Holds (w, a) (clears t outcome) h = clears-Holds t outcome a h
  step-Holds (w, a) (bars now t reason) h = emit-Holds _ _ h
  step-Holds (w, a) (unbars t) h = unbars-Holds t a h
  step-Holds (w, a) (listens_on now nanos bind) h = h
  step-Holds (w, a) (marks_listener id state reason) h = marks_listener-Holds a id state reason h
  step-Holds (w, a) (notes e) h = emit-Holds a e h

  -- Whatever calls the adapter of a node serves, with whatever relays, every session stands under
  -- its own id, the terminal ledger has 32 sessions at most, all closed and of different ids, and
  -- the event buffer has 256 events at most.
  pub run-Holds :
      (w : W) (instance_id : Bytes) (network : NetworkId) (identity : IdentityKeypair)
      (calls : List Call)
      → Holds (run c json relays (w, with_identity instance_id network identity) calls).1
  unfolding with_identity default_adapter run get
  run-Holds w instance_id network identity calls = from calls _ (record {
    keyed = λ id r h. cc h;
    ledger_closed = tt;
    ledger_bound = omega arith;
    events_bound = omega arith;
  })
    where
      from : (calls : List Call) (s : W × Adapter) → Holds s.1 → Holds (run c json relays s calls).1
      from [] s h = h
      from (call ∷ calls) s h = from calls (step c json relays s call) (step-Holds s call h)
