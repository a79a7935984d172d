-- ===== src/Fabric/Estimates.antt =====
-- What crates/fabric/src/lib.rs estimates of paths that were not measured: the costs come from the
-- last network check and from the announcement of a relay. The literals of the 32-bit float and its
-- sum are those of `Floats`; the others are `u32`, with the saturating operations of the code.
use quipnet.Base.{
  ℕ, ◌/◌, Bool, true, false, ◌&&◌, Option, none, some, List, [], ◌∷◌, ◌++◌, Bytes, text, ◌==◌,
  if◌then◌else◌, bytes_eq, min, max, sat_add_u32, sat_mul_u32, length, drop, ltb, ◌||◌, ◌-◌,
}
use quipnet.Model.{TrafficClass, control, interactive, bulk, background, direct_ipv6}
use quipnet.Control.{or_else, is_some}
use quipnet.RelayWire.{RelayAnnouncement}
use quipnet.Routing.{kind_eq}
use quipnet.Netcheck.{
  NetcheckReport, ProbeObservation, pending, passed, failed, probe_status_eq, NatType, unknown,
  udp_blocked, restricted_cone,
}
use quipnet.Fabric.Addresses.{is_ipv6_address, relay_path_kind}

-- `f32`: the value of a literal, and addition.
pub record Floats (F : Type 0) : Type 0 where
  pub literal : Bytes → F
  pub plus : F → F → F

abbrev lesser : ℕ → Option ℕ → Option ℕ
lesser n none = some n
lesser n (some m) = some (min n m)

-- The least latency among the passed probes that measured one.
unfoldable pub least_passed : List ProbeObservation → Option ℕ
least_passed [] = none
least_passed (o ∷ os) =
    let rest = least_passed os in
    if o.status == passed then elim o.latency_ms [ none ↦ rest | some n ↦ lesser n rest ] else rest

unfoldable pub best_probe_latency_ms : NetcheckReport → Option ℕ
unfolding least_passed
best_probe_latency_ms netcheck = least_passed netcheck.probe_observations

abbrev unwrap_or : Option ℕ → ℕ → ℕ
unwrap_or none n = n
unwrap_or (some m) n = m

unfoldable pub direct_bootstrap_rtt_ms : NetcheckReport → ℕ
direct_bootstrap_rtt_ms netcheck = unwrap_or (best_probe_latency_ms netcheck) 40

unfoldable pub direct_bootstrap_jitter_ms : NetcheckReport → ℕ
direct_bootstrap_jitter_ms netcheck = if netcheck.udp_reachable then 3 else 12

unfoldable pub direct_bootstrap_throughput_mbps : NetcheckReport → ℕ
direct_bootstrap_throughput_mbps netcheck = if netcheck.udp_reachable then 600 else 120

unfoldable pub direct_relay_rtt_ms : RelayAnnouncement → NetcheckReport → ℕ
direct_relay_rtt_ms relay netcheck =
    let base =
      unwrap_or (best_probe_latency_ms netcheck) (if netcheck.udp_reachable then 30 else 70) in
    if (relay_path_kind relay == direct_ipv6) && netcheck.ipv6_reachable
    then sat_add_u32 base 5
    else sat_add_u32 base 15

unfoldable pub direct_relay_jitter_ms : NetcheckReport → ℕ
direct_relay_jitter_ms netcheck = if netcheck.udp_reachable then 4 else 14

-- `clamp(100, 5_000)`, which fits a `u32`.
unfoldable pub relay_direct_throughput_mbps : RelayAnnouncement → ℕ
relay_direct_throughput_mbps relay = min (max (relay.max_bandwidth_bps / 1_000_000) 100) 5000

unfoldable pub relay_fallback_rtt_ms : RelayAnnouncement → NetcheckReport → ℕ
relay_fallback_rtt_ms relay netcheck =
    sat_add_u32 (sat_mul_u32 (direct_relay_rtt_ms relay netcheck) 2) 20

unfoldable pub relay_fallback_jitter_ms : NetcheckReport → ℕ
relay_fallback_jitter_ms netcheck = sat_add_u32 (direct_relay_jitter_ms netcheck) 5

unfoldable pub relay_fallback_throughput_mbps : RelayAnnouncement → ℕ
relay_fallback_throughput_mbps relay = max (relay_direct_throughput_mbps relay / 2) 80

module _ {F : Type 0} (f : Floats F) where
  unfoldable pub direct_bootstrap_loss_pct : NetcheckReport → F
  direct_bootstrap_loss_pct netcheck =
      if netcheck.udp_reachable then f.literal (text "0.2") else f.literal (text "1.5")

  unfoldable pub direct_relay_loss_pct : NetcheckReport → F
  direct_relay_loss_pct netcheck =
      if netcheck.udp_reachable then f.literal (text "0.3") else f.literal (text "1.8")

  unfoldable pub relay_fallback_loss_pct : NetcheckReport → F
  relay_fallback_loss_pct netcheck =
      f.plus (direct_relay_loss_pct netcheck) (f.literal (text "0.4"))

-- The class that a name of an announcement stands for.
abbrev pub class_of_name : Bytes → Option TrafficClass
class_of_name value =
    if value == text "NetworkControl"
    then some control
    else if value == text "InteractiveRpc"
    then some interactive
    else if value == text "Background"
    then some background
    else if value == text "Bulk"
    then some bulk
    else none

classes_of_names : List Bytes → List TrafficClass
classes_of_names [] = []
classes_of_names (value ∷ values) = elim (class_of_name value) [
  | none ↦ classes_of_names values
  | some class ↦ class ∷ classes_of_names values
]

abbrev or_latency : List TrafficClass → List TrafficClass
or_latency [] = control ∷ interactive ∷ []
or_latency (c ∷ classes) = c ∷ classes

unfoldable pub relay_traffic_classes : List Bytes → List TrafficClass
unfolding classes_of_names
relay_traffic_classes values = or_latency (classes_of_names values)

unfoldable pub pending_netcheck : NetcheckReport
pending_netcheck = record {
  nat_type = unknown;
  udp_reachable = false;
  ipv6_reachable = false;
  hairpin_supported = false;
  public_udp_addr = none;
  port_mapped = false;
  probe_observations =
      (record {
        vantage = text "local";
        status = pending;
        latency_ms = none;
        detail = text "netcheck has not run yet";
      })
      ∷ [];
}

-- A NAT that is unknown or blocked counts as a restricted cone once a mapping is known.
abbrev known_nat : NatType → NatType
known_nat unknown = restricted_cone
known_nat udp_blocked = restricted_cone
known_nat n = n

-- The first test of `reprobe_netcheck`.
mapped : NetcheckReport → NetcheckReport
mapped r =
    if r.port_mapped || is_some r.public_udp_addr
    then record r { udp_reachable = true; nat_type = known_nat r.nat_type }
    else r

abbrev opt_ipv6 : Option Bytes → Bool
opt_ipv6 none = false
opt_ipv6 (some addr) = is_ipv6_address addr

-- The second.
dual : NetcheckReport → NetcheckReport
dual r = if opt_ipv6 r.public_udp_addr then record r { ipv6_reachable = true } else r

-- The observation that a reprobe adds.
observation : NetcheckReport → Bytes → ProbeObservation
observation r reason =
    let reachable = r.udp_reachable || r.ipv6_reachable in
    record {
      vantage = text "local-runtime";
      status = if reachable then passed else failed;
      latency_ms = if reachable then or_else (best_probe_latency_ms r) (some 20) else none;
      detail = text "network change reprobe: " ++ reason;
    }

-- `if list.len() > n { list.drain(0..list.len() - n); }`.
unfoldable pub keep_last {ℓ} : {A : Type ℓ} → ℕ → List A → List A
keep_last n xs = if ltb n (length xs) then drop (length xs - n) xs else xs

unfoldable pub reprobe_netcheck : NetcheckReport → Bytes → NetcheckReport
unfolding mapped dual observation keep_last
reprobe_netcheck netcheck reason =
    let r = dual (mapped netcheck) in
    record r {
      probe_observations = keep_last 8 (r.probe_observations ++ observation r reason ∷ []);
    }
