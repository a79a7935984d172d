-- ===== src/Tests/Daily.antt =====
-- Methods of a daemon over the QUIC adapter of its node, and over a transport that is watched.
use quipnet.Base.{arith, some, none, bytes_discrete, ℕ, List, [], ◌∷◌, text, All, ◌≡◌, refl, ok}
use quipnet.Routing.{kind_eq}
use quipnet.Quic
use quipnet.Quic.{
  SessionRecord, snapshot_of, update_session_state, finish, hang_up, emit, record_terminal_session,
  close_relay_transport_session, with_state, with_identity, default_adapter, pop_front_over, ended,
}
use quipnet.Base.Maps.{get, update, remove}
use quipnet.Fabric.Sessions.{mark, close_session, existing_session, persist}
use quipnet.Quic.Lifecycle.{Node, quic_transport, active_sessions}
use quipnet.Transport.{closing, operator_requested, SessionSnapshot, RoutePlan}
use quipnet.Fabric.Exec.{calls, ◌>>◌, World, ◌>>=◌}
use quipnet.Fabric.State.{DaemonState}
use quipnet.Fabric.Plane.{Plane, ensure_state, state_exists, load, save, refreshed}
use quipnet.Fabric.Methods.{
  closes_session, reconciles_sessions, invoke, logged, watched, IsPermitted, invoke-IsPermitted,
}
use quipnet.Fabric.Admissions.{Admitted, invoke-Admitted}
use quipnet.Tests.Cycles.{plane, present, loads, sessions, runtime}
use quipnet.Tests.Daemons.{disk, daemon}
use quipnet.Tests.Transports.{counting, draw, with_session, relayed, relayed_snapshot}
use quipnet.Tests.Toy.{toy}

abbrev node_plane : Plane ℕ (Node ℕ)
node_plane = record {
  config = plane.config;
  crypto = plane.crypto;
  json = plane.json;
  floats = plane.floats;
  scaled = plane.scaled;
  at_least_one = plane.at_least_one;
  loss_eq = plane.loss_eq;
  serde = plane.serde;
  transport = quic_transport toy (λ u. []) counting;
}

abbrev spare : SessionRecord
spare = record relayed { snapshot = record relayed_snapshot { session_id = text "spare" } }

-- A node with two sessions.
abbrev busy : World (Node ℕ)
busy = record {
  disk = disk;
  runtime = record {
    relays = 0;
    adapter = record with_session {
      runtime_sessions = (text "session", relayed) ∷ (text "spare", spare) ∷ [];
    };
    draws = λ n. draw;
    drawn = 0;
  };
}

busy_ready : ensure_state node_plane busy ≡ (ok (refreshed node_plane daemon), busy)
unfolding ensure_state state_exists load ◌>>=◌ refreshed
busy_ready = rw (present, ensure_state) (rw (loads, ensure_state) refl)

-- The method after the state is read; closing one session leaves the other.
abbrev close_one : DaemonState ℕ → World (Node ℕ)
close_one s =
    ((existing_session node_plane (text "session") >>= λ session.
    mark node_plane (text "session") closing (some operator_requested)
      (text "operator requested close")
    >> (calls (node_plane.transport.close_session session) >> persist node_plane s))
      busy).1

other_stays :
    (s : DaemonState ℕ)
    → get (text "spare") (close_one s).runtime.adapter.runtime_sessions ≡ some spare
unfolding existing_session persist save ◌>>=◌ quic_transport snapshot_of get update remove
    with_identity default_adapter pop_front_over ended bytes_discrete update_session_state
    Quic.close_session finish hang_up emit record_terminal_session close_relay_transport_session
    with_state active_sessions
other_stays s = ground arith

spare_stays :
    get
      (text "spare")
      (invoke node_plane (closes_session (text "session")) busy).runtime.adapter.runtime_sessions
    ≡ some spare
unfolding close_session ◌>>=◌ get
spare_stays = rw (busy_ready, get) (other_stays (refreshed node_plane daemon))

invoke-Admitted_example :
    Admitted toy
      (refreshed node_plane daemon)
      busy.runtime.adapter.runtime_sessions
      (text "spare")
      (text "server")
      none
invoke-Admitted_example =
    invoke-Admitted toy (λ u. []) counting node_plane (closes_session (text "session")) busy busy
      (refreshed node_plane daemon) (text "spare") spare busy_ready spare_stays

abbrev watched_plane : Plane ℕ (List SessionSnapshot × List RoutePlan)
watched_plane = record {
  config = plane.config;
  crypto = plane.crypto;
  json = plane.json;
  floats = plane.floats;
  scaled = plane.scaled;
  at_least_one = plane.at_least_one;
  loss_eq = plane.loss_eq;
  serde = plane.serde;
  transport = logged runtime;
}

abbrev watched_world : World (List SessionSnapshot × List RoutePlan)
watched_world = record { disk = disk; runtime = (sessions, []) }

watched_ready :
    ensure_state (watched runtime watched_plane) watched_world
    ≡ (ok (refreshed plane daemon), watched_world)
unfolding ensure_state state_exists load ◌>>=◌ refreshed
watched_ready = rw (present, ensure_state) (rw (loads, ensure_state) refl)

invoke-IsPermitted_example :
    All
      (IsPermitted (watched runtime watched_plane) (refreshed plane daemon))
      (invoke (watched runtime watched_plane) reconciles_sessions watched_world).runtime.1
invoke-IsPermitted_example =
    invoke-IsPermitted runtime watched_plane reconciles_sessions watched_world watched_world
      (refreshed plane daemon) refl watched_ready
