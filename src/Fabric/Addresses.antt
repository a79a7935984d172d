-- ===== src/Fabric/Addresses.antt =====
-- Addresses in crates/fabric/src/lib.rs: which of them fit a kind of path.
use quipnet.Base.{
  Bool, true, false, not, ◌&&◌, ◌||◌, List, [], ◌∷◌, Bytes, text, ◌==◌, nat_eq, ltb, any, keep,
  count,
}
use quipnet.Model.{PathKind, direct_udp, direct_ipv6, relay, loopback, lan}
use quipnet.PeerText.{starts_with, str_contains}
use quipnet.RelayWire.{RelayAnnouncement}
use quipnet.Routing.{PathSource}
use quipnet.Transport.{RouteSource}
use quipnet.Fabric.State.{BootstrapEndpoint}

unfoldable pub is_direct_quic_address : Bytes → Bool
is_direct_quic_address address =
    starts_with (text "quic://") address || starts_with (text "udp://") address

unfoldable pub is_ipv6_address : Bytes → Bool
is_ipv6_address address =
    str_contains (text "://[") address || ltb 2 (count (λ c. c == b':') address)

unfoldable pub endpoint_matches_path_kind : Bytes → PathKind → Bool
endpoint_matches_path_kind address direct_ipv6 =
    is_direct_quic_address address && is_ipv6_address address
endpoint_matches_path_kind address direct_udp =
    is_direct_quic_address address && not (is_ipv6_address address)
endpoint_matches_path_kind address relay = is_direct_quic_address address
endpoint_matches_path_kind address loopback =
    str_contains (text "127.0.0.1") address || str_contains (text "://[::1]") address
endpoint_matches_path_kind address lan =
    str_contains (text "192.168.") address
    || (str_contains (text "10.") address || str_contains (text "172.16.") address)

abbrev or_all : List Bytes → List Bytes → List Bytes
or_all [] addresses = addresses
or_all (a ∷ filtered) addresses = a ∷ filtered

unfoldable pub route_endpoints : List Bytes → PathKind → List Bytes
unfolding endpoint_matches_path_kind
route_endpoints addresses path_kind =
    or_all (keep (λ address. endpoint_matches_path_kind address path_kind) addresses) addresses

abbrev direct_kind : Bool → PathKind
direct_kind true = direct_ipv6
direct_kind false = direct_udp

unfoldable pub endpoint_path_kind : BootstrapEndpoint → PathKind
endpoint_path_kind endpoint = direct_kind (any (λ a. is_ipv6_address a) endpoint.addresses)

unfoldable pub relay_path_kind : RelayAnnouncement → PathKind
relay_path_kind r = direct_kind (any (λ a. is_ipv6_address a) r.advertised_endpoints)

unfoldable pub route_source : PathSource → RouteSource
route_source PathSource.observed = RouteSource.observed
route_source PathSource.bootstrap = RouteSource.bootstrap
route_source PathSource.authority_relay = RouteSource.authority_relay
