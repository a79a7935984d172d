-- ===== src/Tests/RelayRuns.antt =====
-- A relay that serves requests, closes and HTTP calls.
use quipnet.Base.{
  ◌≡◌, refl, ◌++◌, none, some, true, [], ◌∷◌, Bytes, text, ok, err, Result, arith, ◌==◌,
  if◌then◌else◌, bytes_eq, bytes_discrete, bytes_lt,
}
use quipnet.Base.Maps.{get, insert}
use quipnet.Model.{codec, interactive}
use quipnet.Crypto.{
  public_key, peer_id, key_peer_id, from_public_key, encode_multihash, verify, is_verifying_key,
  sign,
}
use quipnet.Identity.{SessionCredentialUnsigned, issue_credential, verify_credential}
use quipnet.RelayWire.{RelayOpenRequest, payload}
use quipnet.Relay.{
  RelayNode, RelayService, new_service, returned, open_relay_session, acceptance, accepted_session,
  session, pending_session, apply_frame, unauthorized, admits, verify_open_request, covers,
  supports_traffic_class, authorize_destination, over_quota, active_for_source, enter,
}
use quipnet.Relay.Cases.{entered, run, opens, closes}
use quipnet.Relay.Quota.{WithinQuota, run-WithinQuota}
use quipnet.Relay.Lifecycle.{IsSpent, run-IsSpent, open_relay_session_writes, attempt_takes_over}
use quipnet.Relay.Trust.{Trusted, accepts-Trusted}
use quipnet.Relay.Paths.{
  parsed, panics, parse_session_path, hex_session_id, parse_session_path-hex_session_id,
  parse_session_path_panics,
}
use quipnet.Relay.Fleet.{IsFleet, registers, opens_at, use_all, use_all-IsFleet}
use quipnet.Relay.Http.{accepted_body, control_response, Served, control_response-Served}
use quipnet.Tests.Toy.{toy, client_key, home}

abbrev json : SessionCredentialUnsigned → Bytes
json u = u.nonce

abbrev id_of : Bytes → Bytes
id_of s = s ++ text "-0123456789abcd"

abbrev node : RelayNode
node = record {
  announcement = record {
    peer_id = text "relay";
    region = text "eu";
    advertised_endpoints = [];
    control_endpoint = text "inproc://relay";
    max_bandwidth_bps = 1000;
    supports_quic_datagrams = true;
    supports_path_migration = true;
    traffic_classes = text "BulkTransfer" ∷ text "InteractiveRpc" ∷ [];
  };
  quotas =
      record { peer = peer_id toy client_key; max_bandwidth_bps = 100; max_concurrent_sessions = 2 }
      ∷ [];
  destinations = record { peer = text "server"; protocols = text "/quip/1" ∷ [] } ∷ [];
}

abbrev request : Bytes → RelayOpenRequest
request attempt = record {
  attempt_id = attempt;
  network_id = home;
  source = peer_id toy client_key;
  source_public_key = public_key toy client_key;
  source_credential =
      issue_credential toy json 100 (text "nonce") home client_key [] (text "/quip/1" ∷ []) 60 1;
  destination = text "server";
  protocol = some (text "/quip/1");
  traffic_class = interactive;
}

abbrev first_id : Bytes
first_id = id_of (text "A")

abbrev second_id : Bytes
second_id = id_of (text "B")

abbrev one_session : RelayService
one_session = entered (new_service node) (request (id_of (text "X"))) first_id

abbrev two_sessions : RelayService
two_sessions = entered one_session (request first_id) second_id

first_opens :
    open_relay_session toy json 120 (new_service node) (request (id_of (text "X"))) first_id
    ≡ returned (one_session, ok (acceptance (request (id_of (text "X"))) first_id))
unfolding open_relay_session bytes_discrete bytes_lt get insert admits verify_open_request
    key_peer_id from_public_key peer_id codec public_key encode_multihash verify_credential verify
    is_verifying_key issue_credential sign covers supports_traffic_class authorize_destination
    over_quota active_for_source enter apply_frame new_service
first_opens = refl

second_opens :
    open_relay_session toy json 130 one_session (request first_id) second_id
    ≡ returned (two_sessions, ok (acceptance (request first_id) second_id))
unfolding open_relay_session bytes_discrete bytes_lt get insert admits verify_open_request
    key_peer_id from_public_key peer_id codec public_key encode_multihash verify_credential verify
    is_verifying_key issue_credential sign covers supports_traffic_class authorize_destination
    over_quota active_for_source enter apply_frame new_service
second_opens = refl

run-WithinQuota_example : WithinQuota (
    run toy json
      (new_service node)
      (opens 120 (request (id_of (text "X"))) first_id ∷ closes first_id (text "done") ∷ []))
run-WithinQuota_example =
    run-WithinQuota toy json node
      (opens 120 (request (id_of (text "X"))) first_id ∷ closes first_id (text "done") ∷ [])
      (λ source quota e. ground arith)

run-IsSpent_example :
    IsSpent
      (id_of (text "X"))
      (run toy json one_session (closes first_id [] ∷ opens 130 (request first_id) second_id ∷ []))
unfolding session bytes_discrete bytes_lt get insert new_service
run-IsSpent_example =
    run-IsSpent toy json (id_of (text "X"))
      (closes first_id [] ∷ opens 130 (request first_id) second_id ∷ []) one_session
      (pending_session (request (id_of (text "X"))), refl, refl)

open_relay_session_writes_example :
    (session (new_service node).runtime first_id ≡ none)
    × (acceptance (request (id_of (text "X"))) first_id
        ≡ acceptance (request (id_of (text "X"))) first_id)
    × (one_session.node ≡ node)
    × ((j : Bytes)
        → session one_session.runtime j ≡ (
            if first_id == j
            then some (accepted_session (acceptance (request (id_of (text "X"))) first_id))
            else if id_of (text "X") == j
            then some (pending_session (request (id_of (text "X"))))
            else session (new_service node).runtime j))
unfolding new_service
open_relay_session_writes_example =
    open_relay_session_writes toy json 120 (new_service node) one_session
      (request (id_of (text "X"))) first_id (acceptance (request (id_of (text "X"))) first_id)
      first_opens

attempt_takes_over_example :
    (session two_sessions.runtime first_id ≡ some (pending_session (request first_id)))
    × ((apply_frame two_sessions.runtime (payload first_id (text "hi"))).1 ≡ err unauthorized)
unfolding session bytes_discrete bytes_lt get insert new_service
attempt_takes_over_example =
    attempt_takes_over toy json 130 one_session two_sessions (request first_id) second_id
      (acceptance (request first_id) second_id)
      (accepted_session (acceptance (request (id_of (text "X"))) first_id)) (text "hi") second_opens
      refl refl

accepts-Trusted_example : Trusted toy json 120 (new_service node) (request (id_of (text "X")))
accepts-Trusted_example =
    accepts-Trusted toy json 120 (new_service node) (request (id_of (text "X"))) one_session
      first_id (acceptance (request (id_of (text "X"))) first_id) first_opens

parse_session_path-hex_session_id_example :
    parse_session_path (text "/sessions/" ++ hex_session_id first_id) ≡ parsed first_id
parse_session_path-hex_session_id_example =
    parse_session_path-hex_session_id first_id (ground arith) (ground arith)

-- 24 hexadecimal digits, two letters, and the three bytes of a character with padding.
abbrev short_id : Bytes
short_id = text "0123456789ab"

parse_session_path_panics_example :
    parse_session_path
      (text "/sessions/" ++ (hex_session_id short_id ++ b'a' ∷ 0xC3 ∷ 0xA9 ∷ text "01234"))
    ≡ panics
unfolding hex_session_id
parse_session_path_panics_example =
    parse_session_path_panics short_id (text "01234") b'a' 0xC3 0xA9 (ground arith) (ground arith)
      (ground arith) (ground arith) (ground arith)

-- A body that serde_json decodes.
abbrev decode_open : Bytes → Result Bytes RelayOpenRequest
decode_open body = ok (request (id_of body))

abbrev decode_close : Bytes → Result Bytes Bytes
decode_close body = ok body

first_posted :
    control_response toy json decode_open decode_close 120 first_id
      (new_service node)
      (text "POST")
      (text "/sessions")
      (text "X")
    ≡ returned (one_session, 200, accepted_body (acceptance (request (id_of (text "X"))) first_id))
unfolding control_response open_relay_session bytes_discrete bytes_lt get insert admits
    verify_open_request key_peer_id from_public_key peer_id codec public_key encode_multihash
    verify_credential verify is_verifying_key issue_credential sign covers supports_traffic_class
    authorize_destination over_quota active_for_source enter apply_frame new_service
first_posted = refl

control_response-Served_example :
    Served toy json decode_open decode_close 120 first_id
      (new_service node)
      (text "POST")
      (one_session, 200, accepted_body (acceptance (request (id_of (text "X"))) first_id))
unfolding bytes_discrete
control_response-Served_example =
    control_response-Served toy json decode_open decode_close 120 first_id (new_service node)
      (text "POST") (text "/sessions") (text "X")
      (one_session, 200, accepted_body (acceptance (request (id_of (text "X"))) first_id))
      first_posted

use_all-IsFleet_example : IsFleet (
    use_all toy json []
      (registers node ∷ opens_at 120 (text "relay") (request first_id) second_id ∷ []))
use_all-IsFleet_example =
    use_all-IsFleet toy json
      (registers node ∷ opens_at 120 (text "relay") (request first_id) second_id ∷ [])
      ((λ source quota e. ground arith), (tt, tt))
