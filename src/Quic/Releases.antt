-- ===== src/Quic/Releases.antt =====
-- How often a migration releases the relay session that it leaves.
use quipnet.Base.{
  ◌≡◌, refl, sym, ap, ◌∙◌, inl, inr, false, none, some, Bytes, text, ◌==◌, ok, err, arith,
  Result-cases, bytes_eq,
}
use quipnet.Base.Maps.{get}
use quipnet.Model.{relay}
use quipnet.Routing.{kind_eq}
use quipnet.Crypto.{Primitives}
use quipnet.Identity.{SessionCredentialUnsigned}
use quipnet.Transport.{SessionSnapshot, RoutePlan, migrating}
use quipnet.Quic.State.{SessionRecord, Adapter}
use quipnet.Quic.Plans.{RelayControl, Draw, direct_session_snapshot, session_snapshot_for_route}
use quipnet.Quic.Sessions.{
  snapshot_of, with_state, update_session_state, leaves_relay, close_relay_transport_session,
  release, upsert_runtime_session,
}
use quipnet.Quic.Calls.{continued, switch_path, migrate}
use quipnet.Quic.Registry.{Holds}
use quipnet.Quic.Closing.{updated}

module _ (c : Primitives) (json : SessionCredentialUnsigned → Bytes) {W : Type 0}
    (relays : RelayControl W) where
  -- The relays after the close of a session.
  abbrev pub released : W → Bytes → Bytes → W
  released w endpoint id = (relays.close_at w endpoint id (text "path migrated")).0

  direct_path_kind :
      (d : Draw) (a : Adapter) (route : RoutePlan) (s : SessionSnapshot)
      → direct_session_snapshot c d a route ≡ ok s
      → s.path_kind ≡ route.path_kind
  unfolding direct_session_snapshot
  direct_path_kind d a route s h = ground arith

  for_direct :
      (d : Draw) (w : W) (a : Adapter) (route : RoutePlan)
      → route.relay ≡ none
      → session_snapshot_for_route c json relays d w a route
        ≡ (w, direct_session_snapshot c d a route)
  unfolding session_snapshot_for_route
  for_direct d w a route h = ground arith

  release_leaves :
      (w : W) (p n : SessionSnapshot) (endpoint : Bytes)
      → p.path_kind ≡ relay
      → p.relay_control_endpoint ≡ some endpoint
      → (n.path_kind == relay) ≡ false
      → (release c relays w p n).0 ≡ released w endpoint p.transport_session_id
  unfolding release leaves_relay close_relay_transport_session
  release_leaves w p n endpoint k e f = ground arith

  upsert_releases :
      (w : W) (a : Adapter) (r p : SessionRecord)
      → get r.snapshot.session_id a.runtime_sessions ≡ some p
      → (upsert_runtime_session c relays w a r).0.0 ≡ (release c relays w p.snapshot r.snapshot).0
  unfolding upsert_runtime_session
  upsert_releases w a r p known =
      rw (known, upsert_runtime_session)
        (elim (Result-cases (release c relays w p.snapshot r.snapshot).1) [
          | inl (_, f) ↦ rw f refl
          | inr (_, f) ↦ rw f refl
        ])

  switch_releases :
      (d : Draw) (w : W) (a : Adapter) (route : RoutePlan) (p : SessionRecord)
      (fresh m : SessionSnapshot) (endpoint : Bytes)
      → get p.snapshot.session_id a.runtime_sessions ≡ some p
      → p.snapshot.path_kind ≡ relay
      → p.snapshot.relay_control_endpoint ≡ some endpoint
      → (fresh.path_kind == relay) ≡ false
      → (switch_path c json relays d.now w a route p.snapshot fresh).1 ≡ ok m
      → (switch_path c json relays d.now w a route p.snapshot fresh).0.0
        ≡ released
            (released w endpoint p.snapshot.transport_session_id)
            endpoint
            p.snapshot.transport_session_id
  unfolding switch_path continued
  switch_releases d w a route p fresh m endpoint known k e f h =
      let n = continued d.now p.snapshot fresh in
      let v = (release c relays w p.snapshot n).0 in
      let r : SessionRecord = record { snapshot = n; alpn_protocol = route.protocol } in
      let one = release_leaves w p.snapshot n endpoint k e f in
      let two = upsert_releases v a r p known ∙ release_leaves v p.snapshot n endpoint k e f in
      elim (Result-cases (release c relays w p.snapshot n).1) [
        | inr (x, g) ↦ ground arith
        | inl (_, g) ↦
            rw (g, switch_path)
              (elim (Result-cases (upsert_runtime_session c relays v a r).1) [
                | inl (_, i) ↦
                    rw i (two ∙ ap (λ u. released u endpoint p.snapshot.transport_session_id) one)
                | inr (_, i) ↦
                    rw i (two ∙ ap (λ u. released u endpoint p.snapshot.transport_session_id) one)
              ])
      ]

  -- A successful migration of a session on a relay to a route without one, for a well-formed
  -- adapter, asks the relay to close the old session two times.
  pub migrate_releases_twice :
      (d : Draw) (w : W) (a : Adapter) (id endpoint : Bytes) (route : RoutePlan) (r : SessionRecord)
      (m : SessionSnapshot)
      → Holds a
      → get id a.runtime_sessions ≡ some r
      → r.snapshot.path_kind ≡ relay
      → r.snapshot.relay_control_endpoint ≡ some endpoint
      → route.relay ≡ none
      → (route.path_kind == relay) ≡ false
      → (migrate c json relays d w a id route).1 ≡ ok m
      → (migrate c json relays d w a id route).0.0
        ≡ released
            (released w endpoint r.snapshot.transport_session_id)
            endpoint
            r.snapshot.transport_session_id
  unfolding migrate with_state snapshot_of
  migrate_releases_twice d w a id endpoint route r m holds h k e direct f done =
      let reason = some (text "daemon requested path migration") in
      let b : Adapter = (update_session_state c d.now a id migrating none reason).0 in
      let p : SessionRecord = with_state d.now migrating none reason r in
      let known : get id b.runtime_sessions ≡ some p =
        (updated c json relays d.now a id migrating none reason r h).0 in
      elim (Result-cases (direct_session_snapshot c d b route)) [
        | inr (x, g) ↦
            let q : migrate c json relays d w a id route ≡ ((w, b), err x) =
              rw (known, migrate)
                (rw (for_direct d w b route direct)
                  (rw g (ap (λ z. ((z.0, b), err x)) (for_direct d w b route direct)))) in
            cc (sym (ap (λ z. z.1) q) ∙ done)
        | inl (s, g) ↦
            let q : migrate c json relays d w a id route
                ≡ switch_path c json relays d.now w b route p.snapshot s =
              rw (known, migrate)
                (rw (for_direct d w b route direct) (
                  rw g (
                    ap (λ z. switch_path c json relays d.now z.0 b route p.snapshot s)
                      (for_direct d w b route direct)))) in
            ap (λ z. z.0.0) q
            ∙ switch_releases d w b route p s m endpoint
                (ap (λ j. get j b.runtime_sessions) (holds.keyed id r h) ∙ known) k e
                (ap (λ i. i == relay) (direct_path_kind d b route s g) ∙ f)
                (sym (ap (λ z. z.1) q) ∙ done)
      ]
