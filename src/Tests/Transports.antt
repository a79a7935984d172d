-- ===== src/Tests/Transports.antt =====
-- Sessions of a transport adapter with a relay that counts the sessions that it closes.
use quipnet.Base.{
  ℕ, suc, ◌≡◌, refl, none, some, true, [], ◌∷◌, Bytes, text, ok, arith, bytes_discrete,
}
use quipnet.Base.Maps.{get, update}
use quipnet.Model.{bulk, direct_udp, relay}
use quipnet.Crypto.{peer_id}
use quipnet.Identity.{SessionCredentialUnsigned}
use quipnet.Relay.{acceptance}
use quipnet.Transport.{
  RoutePlan, SessionSnapshot, RuntimeReconnectAttempt, backing_off, active, observed,
}
use quipnet.Quic.{
  logical_session_id, update_session_state, snapshot_of, with_state, emit,
  session_snapshot_for_route, direct_session_snapshot, local_identity_for, switch_path, release,
  leaves_relay, close_relay_transport_session, upsert_runtime_session, RelayControl, Draw, Adapter,
  SessionRecord, default_adapter, with_identity, migrate, close_session, continued,
}
use quipnet.Quic.Registry.{Holds}
use quipnet.Quic.Runs.{connects, closes, run}
use quipnet.Quic.Histories.{run-Holds}
use quipnet.Quic.Closing.{Ending, close_session-Ending}
use quipnet.Quic.Migration.{Migration}
use quipnet.Quic.Releases.{migrate_releases_twice}
use quipnet.Tests.Toy.{toy, client_key, home}

abbrev json : SessionCredentialUnsigned → Bytes
json u = u.nonce

abbrev pub counting : RelayControl ℕ
counting = record {
  open_at = λ n endpoint q. (n, ok (acceptance q (text "relay-session")));
  close_at = λ n endpoint id reason. (suc n, ok tt);
  session_at = λ n endpoint id. (n, ok none);
}

abbrev pub draw : Draw
draw = record { now = 50; nonce = text "n"; session_public_key = text "k"; attempt_id = text "a" }

abbrev direct_route : RoutePlan
direct_route = record {
  local_peer = peer_id toy client_key;
  peer = text "server";
  protocol = none;
  class = bulk;
  path_kind = direct_udp;
  source = observed;
  remote_endpoints = text "udp://server" ∷ [];
  relay = none;
}

abbrev pub relayed_snapshot : SessionSnapshot
relayed_snapshot = record {
  session_id = text "session";
  transport_session_id = text "relay-session";
  relay_attempt_id = some (text "attempt");
  peer = text "server";
  protocol = none;
  class = bulk;
  path_kind = relay;
  source = observed;
  remote_endpoint = text "udp://server";
  relay_peer = some (text "relay");
  relay_endpoint = some (text "udp://relay");
  relay_control_endpoint = some (text "http://relay");
  datagrams_capable = true;
  migration_capable = true;
  state = active;
  closure_reason = none;
  state_reason = none;
  created_at_unix_secs = 10;
  last_activity_unix_secs = 10;
}

abbrev pub relayed : SessionRecord
relayed = record { snapshot = relayed_snapshot; alpn_protocol = none }

abbrev pub with_session : Adapter
with_session = record (with_identity (text "runtime") home client_key) {
  runtime_sessions = (text "session", relayed) ∷ [];
}

with_session-Holds : Holds with_session
unfolding with_identity default_adapter get
with_session-Holds = record {
  keyed = λ id r h. ground arith;
  ledger_closed = tt;
  ledger_bound = ground arith;
  events_bound = ground arith;
}

run-Holds_example :
    Holds
      (run toy json counting
        (0, with_identity (text "runtime") home client_key)
        (connects draw direct_route ∷ closes 60 relayed_snapshot ∷ [])).1
run-Holds_example =
    run-Holds toy json counting 0 (text "runtime") home client_key
      (connects draw direct_route ∷ closes 60 relayed_snapshot ∷ [])

close_session-Ending_example :
    (get
        (text "session")
        (close_session toy json counting 60 0 with_session relayed_snapshot).0.1.runtime_sessions
      ≡ none)
    × Ending with_session
        (close_session toy json counting 60 0 with_session relayed_snapshot).0.1
        (text "session")
        relayed
        (close_session toy json counting 60 0 with_session relayed_snapshot).1
unfolding get bytes_discrete
close_session-Ending_example =
    close_session-Ending toy json counting 60 0 with_session relayed_snapshot relayed
      with_session-Holds refl

abbrev backing : RuntimeReconnectAttempt
backing = record {
  peer = text "server";
  protocol = none;
  class = bulk;
  state = backing_off;
  reason = text "timeout";
  attempt_count = 1;
  last_attempt_unix_secs = 50;
  next_attempt_unix_secs = 52;
  max_attempts = 5;
}

abbrev waiting : Adapter
waiting = record with_session { reconnect_attempts = backing ∷ [] }

abbrev moved_snapshot : SessionSnapshot
moved_snapshot = record relayed_snapshot {
  transport_session_id = logical_session_id toy (text "runtime") direct_route;
  relay_attempt_id = none;
  path_kind = direct_udp;
  relay_peer = none;
  relay_endpoint = none;
  relay_control_endpoint = none;
  last_activity_unix_secs = 50;
}

moves :
    (migrate toy json counting draw 0 with_session (text "session") direct_route).1
    ≡ ok moved_snapshot
unfolding migrate update_session_state snapshot_of with_state emit session_snapshot_for_route
    direct_session_snapshot local_identity_for switch_path continued release leaves_relay
    close_relay_transport_session upsert_runtime_session get update with_identity default_adapter
    bytes_discrete
moves = ground arith

migrate_releases_twice_example :
    (migrate toy json counting draw 0 with_session (text "session") direct_route).0.0 ≡ 2
unfolding get bytes_discrete
migrate_releases_twice_example =
    migrate_releases_twice toy json counting draw 0 with_session (text "session")
      (text "http://relay") direct_route relayed moved_snapshot with_session-Holds refl refl refl
      refl (ground arith) moves
