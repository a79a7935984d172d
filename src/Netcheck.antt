-- ===== src/Netcheck.antt =====
-- crates/netcheck/src/lib.rs: the report of a network check.
use quipnet.Base.{
  ℕ, Bool, true, false, not, ◌||◌, Option, none, some, List, [], ◌∷◌, ◌++◌, Bytes, text, join, Eq,
  if◌then◌else◌,
}

pub data NatType : Type 0 where
  unknown open_internet full_cone restricted_cone port_restricted_cone symmetric udp_blocked :
      NatType

pub data ProbeStatus : Type 0 where
  pending passed failed : ProbeStatus

pub ProbeStatus-discrete : Discrete ProbeStatus
ProbeStatus-discrete = hlevel

instance abbrev pub probe_status_eq : Eq ProbeStatus
probe_status_eq = record { dec = ProbeStatus-discrete }

pub record ProbeObservation : Type 0 where
  pub vantage : Bytes
  pub status : ProbeStatus
  pub latency_ms : Option ℕ
  pub detail : Bytes

pub record NetcheckReport : Type 0 where
  pub nat_type : NatType
  pub udp_reachable : Bool
  pub ipv6_reachable : Bool
  pub hairpin_supported : Bool
  pub public_udp_addr : Option Bytes
  pub port_mapped : Bool
  pub probe_observations : List ProbeObservation

abbrev is_symmetric : NatType → Bool
is_symmetric symmetric = true
is_symmetric _ = false

abbrev needs_relay : NatType → Bool
needs_relay symmetric = true
needs_relay udp_blocked = true
needs_relay _ = false

unfoldable pub relay_required : NetcheckReport → Bool
relay_required r = not r.udp_reachable || needs_relay r.nat_type

abbrev nat_debug : NatType → Bytes
nat_debug unknown = text "Unknown"
nat_debug open_internet = text "OpenInternet"
nat_debug full_cone = text "FullCone"
nat_debug restricted_cone = text "RestrictedCone"
nat_debug port_restricted_cone = text "PortRestrictedCone"
nat_debug symmetric = text "Symmetric"
nat_debug udp_blocked = text "UdpBlocked"

abbrev line_if : Bool → Bytes → List Bytes
line_if true s = s ∷ []
line_if false s = []

abbrev address_line : Option Bytes → List Bytes
address_line none = []
address_line (some addr) = (text "public_addr=" ++ addr) ∷ []

unfoldable pub summary : NetcheckReport → Bytes
unfolding relay_required
summary r = join (text ", ") (
    (text "nat=" ++ nat_debug r.nat_type)
    ∷ (text "udp=" ++ (if r.udp_reachable then text "reachable" else text "blocked"))
    ∷ (text "ipv6=" ++ (if r.ipv6_reachable then text "reachable" else text "unavailable"))
    ∷ (text "hairpin=" ++ (if r.hairpin_supported then text "supported" else text "unsupported"))
    ∷ (address_line r.public_udp_addr
        ++ (line_if r.port_mapped (text "portmap=active")
            ++ line_if (relay_required r) (text "relay=fallback-required"))))

unfoldable pub warnings : NetcheckReport → List Bytes
warnings r =
    line_if (not r.udp_reachable) (text "UDP connectivity is blocked; direct QUIC paths will fail.")
    ++ (line_if (is_symmetric r.nat_type)
          (text "Symmetric NAT detected; relay capacity should be kept warm.")
        ++ (line_if (not r.ipv6_reachable)
              (text "IPv6 pathing is unavailable; dual-stack upgrades are disabled.")
            ++ line_if (not r.hairpin_supported)
                (text "Hairpinning is unavailable; same-site reflexive testing may degrade.")))
