-- ===== src/Fabric/Peers.antt =====
-- How crates/fabric/src/lib.rs fills the list of peers from bootstrap endpoints and relay maps: each
-- list is built anew through a `PeerStore`, which sorts it by peer and keeps one entry for each.
use quipnet.Base.{none, some, List, [], ◌∷◌, map, Bytes, text, split, keep, not, ◌==◌, bytes_eq}
use quipnet.Base.Maps.{Map, get}
use quipnet.Base.Trim.{trim}
use quipnet.Membership.{BootstrapHint}
use quipnet.RelayWire.{RelayAnnouncement, RelayMap}
use quipnet.PeerStore.{
  PeerSnapshot, PeerSource, PeerStatus, unknown, PeerInspection, PeerStore, or_status,
  upsert_peer_with_status, peer_status, all_peers,
}
use quipnet.Fabric.State.{BootstrapEndpoint}

abbrev default_protocols : List Bytes
default_protocols = text "/quip/control/1" ∷ text "/quip/records/1" ∷ []

abbrev or_default_protocols : List Bytes → List Bytes
or_default_protocols [] = default_protocols
or_default_protocols (p ∷ ps) = p ∷ ps

unfoldable pub bootstrap_protocols : Map Bytes → List Bytes
bootstrap_protocols metadata = elim (get (text "protocols") metadata) [
  | none ↦ default_protocols
  | some value ↦ or_default_protocols (keep (λ p. not (p == [])) (map trim (split b',' value)))
]

unfoldable pub bootstrap_endpoint_from_hint : BootstrapHint → BootstrapEndpoint
bootstrap_endpoint_from_hint hint = record {
  peer = hint.peer_id;
  addresses = hint.addresses;
  protocols = bootstrap_protocols hint.metadata;
  metadata = hint.metadata;
}

abbrev pub empty_store : PeerStore
empty_store = record { peers = []; statuses = []; records = [] }

abbrev bootstrap_status : PeerStatus
bootstrap_status = record {
  source = PeerSource.bootstrap;
  reachability = unknown;
  last_seen_unix_secs = none;
}

-- The snapshot of a peer at an endpoint.
unfoldable pub endpoint_snapshot : Bytes → BootstrapEndpoint → PeerSnapshot
endpoint_snapshot peer endpoint = record {
  peer = peer;
  protocols = endpoint.protocols;
  addresses = endpoint.addresses;
}

-- The loop over the endpoints; one without a peer is passed over.
add_endpoints : List BootstrapEndpoint → PeerStore → PeerStore
add_endpoints [] store = store
add_endpoints (e ∷ endpoints) store = add_endpoints endpoints (elim e.peer [
  | none ↦ store
  | some peer ↦ upsert_peer_with_status (endpoint_snapshot peer e) bootstrap_status store
])

unfoldable pub bootstrap_peers : List BootstrapEndpoint → List PeerInspection
unfolding add_endpoints
bootstrap_peers endpoints = all_peers (add_endpoints endpoints empty_store)

-- The loop over the peers that are known.
unfoldable pub add_existing : List PeerInspection → PeerStore → PeerStore
add_existing [] store = store
add_existing (p ∷ peers) store =
    add_existing peers (upsert_peer_with_status p.snapshot p.status store)

-- The status that is held stays.
merge_endpoints : List BootstrapEndpoint → PeerStore → PeerStore
merge_endpoints [] store = store
merge_endpoints (e ∷ endpoints) store = merge_endpoints endpoints (elim e.peer [
  | none ↦ store
  | some peer ↦
      upsert_peer_with_status (endpoint_snapshot peer e)
        (or_status (peer_status store peer) bootstrap_status) store
])

unfoldable pub merge_bootstrap_peers :
    List PeerInspection → List BootstrapEndpoint → List PeerInspection
unfolding merge_endpoints
merge_bootstrap_peers existing bootstrap =
    all_peers (merge_endpoints bootstrap (add_existing existing empty_store))

abbrev relay_protocols : List Bytes
relay_protocols = text "/quip/relay/1" ∷ []

add_relays : RelayMap → List RelayAnnouncement → PeerStore → PeerStore
add_relays relay_map [] store = store
add_relays relay_map (r ∷ relays) store = add_relays relay_map relays (
    upsert_peer_with_status
      (record { peer = r.peer_id; protocols = relay_protocols; addresses = r.advertised_endpoints })
      (record {
        source = PeerSource.relay_map;
        reachability = unknown;
        last_seen_unix_secs = some relay_map.generated_at;
      })
      store)

unfoldable pub relay_peers : RelayMap → List PeerInspection
unfolding add_relays
relay_peers relay_map = all_peers (add_relays relay_map relay_map.relays empty_store)

merge_relays : List PeerInspection → PeerStore → PeerStore
merge_relays [] store = store
merge_relays (r ∷ relays) store = merge_relays relays (
    upsert_peer_with_status r.snapshot
      (or_status (peer_status store r.snapshot.peer) (record {
        source = PeerSource.relay_map;
        reachability = unknown;
        last_seen_unix_secs = r.status.last_seen_unix_secs;
      }))
      store)

unfoldable pub merge_relay_peers : List PeerInspection → List PeerInspection → List PeerInspection
unfolding merge_relays
merge_relay_peers existing relays =
    all_peers (merge_relays relays (add_existing existing empty_store))
