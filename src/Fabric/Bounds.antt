-- ===== src/Fabric/Bounds.antt =====
-- The range of the estimates in crates/fabric/src/lib.rs.
use quipnet.Base.{◌≤◌, ◌<◌, arith, u32_mod}
use quipnet.RelayWire.{RelayAnnouncement}
use quipnet.Netcheck.{NetcheckReport, probe_status_eq}
use quipnet.Fabric.Estimates.{
  direct_relay_rtt_ms, direct_relay_jitter_ms, relay_direct_throughput_mbps, relay_fallback_rtt_ms,
  relay_fallback_jitter_ms, relay_fallback_throughput_mbps,
}

-- For every relay and every network check, the estimates of latency and jitter fit a `u32`; a path
-- through a relay is estimated no faster than the path to the relay, with more jitter and with less
-- throughput, between 80 and 2,500 Mbit/s, while the path to the relay is given between 100 and 5,000.
pub relay_estimates_bounds :
    (r : RelayAnnouncement) (n : NetcheckReport)
    → (direct_relay_rtt_ms r n ≤ relay_fallback_rtt_ms r n)
      × (relay_fallback_rtt_ms r n < u32_mod)
      × (direct_relay_jitter_ms n < relay_fallback_jitter_ms n)
      × (relay_fallback_jitter_ms n < u32_mod)
      × (relay_fallback_throughput_mbps r < relay_direct_throughput_mbps r)
      × (80 ≤ relay_fallback_throughput_mbps r)
      × (relay_fallback_throughput_mbps r ≤ 2500)
      × (100 ≤ relay_direct_throughput_mbps r)
      × (relay_direct_throughput_mbps r ≤ 5000)
unfolding direct_relay_rtt_ms direct_relay_jitter_ms relay_fallback_rtt_ms relay_fallback_jitter_ms
    relay_fallback_throughput_mbps relay_direct_throughput_mbps
relay_estimates_bounds r n = (
  ground arith,
  ground arith,
  ground arith,
  ground arith,
  ground arith,
  ground arith,
  ground arith,
  ground arith,
  ground arith,
)
