-- ===== src/Quic/Migration.antt =====
-- How a session of the transport adapter migrates to another path.
use quipnet.Base.{ℕ, ◌≡◌, some, Bytes, ok, err, Result, bytes_eq}
use quipnet.Base.Maps.{Map, get}
use quipnet.Model.{relay}
use quipnet.Routing.{kind_eq}
use quipnet.Transport.{TransportError, SessionSnapshot, RoutePlan, migrating}
use quipnet.Quic.State.{SessionRecord, Adapter}
use quipnet.Quic.Sessions.{snapshot_of}
use quipnet.Quic.Planned.{Follows}

-- The record under `id` in a registry, at `now`, of the session `r` that continues on the route with
-- the snapshot `m`.
pub record Continues (id : Bytes) (r : SessionRecord) (now : ℕ) (route : RoutePlan)
    (sessions : Map SessionRecord) (m : SessionSnapshot) : Type 0 where
  pub entered : get id sessions ≡ some (record { snapshot = m; alpn_protocol = route.protocol })
  pub same_id : m.session_id ≡ id
  pub same_creation : m.created_at_unix_secs ≡ r.snapshot.created_at_unix_secs
  pub touched : m.last_activity_unix_secs ≡ now
  pub on_route : Follows route m

-- The registry of `b` after a migration of the session `r` with the id `id`. The session moved to
-- the route; or it failed and is left on its path, in the state of a migration; or it failed and was
-- moved all the same, which takes a session on a relay.
pub data Migration (id : Bytes) (r : SessionRecord) (now : ℕ) (route : RoutePlan) (b : Adapter)
    : Result TransportError SessionSnapshot → Type 0 where
  moved :
      (m : SessionSnapshot)
      → Continues id r now route b.runtime_sessions m
      → Migration id r now route b (ok m)
  left_migrating :
      (e : TransportError) (s : SessionSnapshot)
      → snapshot_of b id ≡ some s
      → s.state ≡ migrating
      → s.transport_session_id ≡ r.snapshot.transport_session_id
      → Migration id r now route b (err e)
  moved_anyway :
      (e : TransportError) (m : SessionSnapshot)
      → Continues id r now route b.runtime_sessions m
      → r.snapshot.path_kind ≡ relay
      → Migration id r now route b (err e)
