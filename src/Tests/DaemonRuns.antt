-- ===== src/Tests/DaemonRuns.antt =====
-- The daemon of the tests: authority, candidates, routes and the state file.
use quipnet.Base.{
  ℕ, ◌≤◌, ◌<◌, false, not, ◌&&◌, ◌||◌, none, some, [], ◌∷◌, ◌++◌, Bytes, text, ◌≡◌, ◌≢◌, refl,
  arith, any, keep, u32_mod, bytes_discrete, ok, err, ◌!=◌, bytes_eq,
}
use quipnet.Model.{interactive}
use quipnet.Crypto.{derive}
use quipnet.Membership.{issue_certificate}
use quipnet.Control.{AuthorityArtifactSnapshot, is_some}
use quipnet.Control.Repeats.{IsConsistent, same_grant_refl}
use quipnet.Fabric.State.{DaemonState, edge, deny_reason, migration_required}
use quipnet.Fabric.Estimates.{
  pending_netcheck, direct_relay_rtt_ms, direct_relay_jitter_ms, relay_direct_throughput_mbps,
  relay_fallback_rtt_ms, relay_fallback_jitter_ms, relay_fallback_throughput_mbps,
}
use quipnet.Fabric.Authority.{
  apply_revocations, refresh_candidates, authority_snapshot, sync_authority_snapshot,
  from_authority_snapshot, denied_peers,
}
use quipnet.Fabric.Peers.{bootstrap_peers}
use quipnet.Fabric.Policies.{explain_policy}
use quipnet.Fabric.Routes.{route_plan}
use quipnet.Fabric.Json.{Fields, unsigned, string, object, end, field, get_field}
use quipnet.Fabric.Durable.{
  is_allowed, validate_durable_state_value, migrate_durable_state_value, rewritten_paths,
}
use quipnet.Fabric.Denials.{denies, apply_revocations-denies}
use quipnet.Fabric.Allowances.{enables, explain_policy_allows}
use quipnet.Fabric.Refreshes.{
  is_observed, Distinct, refresh_candidates_twice, refresh_candidates-Distinct,
}
use quipnet.Fabric.RoutePlans.{Planned, route_plan-Planned}
use quipnet.Fabric.Bounds.{relay_estimates_bounds}
use quipnet.Fabric.Migrations.{key, migrated, validate-migrate}
use quipnet.Fabric.Inspections.{Inspected, inspect_durable_state_file-load}
use quipnet.Fabric.Seeding.{without_token, no_sync, SameAuthority, sync-from_authority_snapshot}
use quipnet.Tests.Daemons.{
  percent, at_least_one, certificate, grant, revocation, announcement, measured, daemon, floats,
  serde, disk,
}
use quipnet.Tests.Toy.{toy}

apply_revocations-denies_example :
    is_some (
      deny_reason
        (apply_revocations toy daemon (revocation (text "thief") 2 ∷ [])).0
        (text "thief"))
    ≡ any (denies certificate (text "thief")) (revocation (text "guest") 1 ∷ [])
      || any (denies certificate (text "thief")) (revocation (text "thief") 2 ∷ [])
apply_revocations-denies_example =
    apply_revocations-denies toy daemon (revocation (text "thief") 2 ∷ []) (text "thief")

explain_policy_allows_example :
    (explain_policy toy daemon (text "server") (text "/quip/records/1")).allowed
    ≡ not (is_some (deny_reason daemon (text "server")))
      && any (enables daemon (text "/quip/records/1")) (grant ∷ [])
explain_policy_allows_example =
    explain_policy_allows toy daemon (text "server") (text "/quip/records/1")

refresh_candidates_twice_example :
    let t = refresh_candidates floats daemon in
    (refresh_candidates floats t ≡ t)
    × (keep is_observed t.path_candidates ≡ keep is_observed daemon.path_candidates)
refresh_candidates_twice_example = refresh_candidates_twice floats daemon

one_measured : Distinct (keep is_observed (measured ∷ []))
one_measured = ground arith

refresh_candidates-Distinct_example : Distinct (refresh_candidates floats daemon).path_candidates
refresh_candidates-Distinct_example = refresh_candidates-Distinct floats daemon one_measured

route_plan-Planned_example :
    Planned percent at_least_one toy daemon
      (text "server")
      none
      interactive
      (route_plan percent at_least_one toy daemon (text "server") none interactive)
route_plan-Planned_example =
    route_plan-Planned percent at_least_one toy daemon (text "server") none interactive

relay_estimates_bounds_example :
    (direct_relay_rtt_ms announcement pending_netcheck
      ≤ relay_fallback_rtt_ms announcement pending_netcheck)
    × (relay_fallback_rtt_ms announcement pending_netcheck < u32_mod)
    × (direct_relay_jitter_ms pending_netcheck < relay_fallback_jitter_ms pending_netcheck)
    × (relay_fallback_jitter_ms pending_netcheck < u32_mod)
    × (relay_fallback_throughput_mbps announcement < relay_direct_throughput_mbps announcement)
    × (80 ≤ relay_fallback_throughput_mbps announcement)
    × (relay_fallback_throughput_mbps announcement ≤ 2500)
    × (100 ≤ relay_direct_throughput_mbps announcement)
    × (relay_direct_throughput_mbps announcement ≤ 5000)
relay_estimates_bounds_example = relay_estimates_bounds announcement pending_netcheck

abbrev old_fields : Fields
old_fields =
    field (text "network") (string (text "/quip/lab"))
      (field (text "schema_version") (unsigned 1) end)

validate-migrate_example :
    (validate_durable_state_value (object old_fields) ≡ err (migration_required 1 2))
    × (migrate_durable_state_value (object old_fields)
        ≡ ok (
          object (migrated old_fields),
          rewritten_paths (text "$") (object old_fields) ++ text "$.schema_version" ∷ [],
        ))
    × (validate_durable_state_value (object (migrated old_fields)) ≡ ok tt)
    × (migrate_durable_state_value (object (migrated old_fields))
        ≡ ok (object (migrated old_fields), []))
    × ((k : Bytes) → k ≢ key → get_field k (migrated old_fields) ≡ get_field k old_fields)
unfolding is_allowed get_field bytes_discrete
validate-migrate_example = validate-migrate old_fields (ground arith) (ground arith)

inspect_durable_state_file-load_example : Inspected toy serde disk (text "state.json")
inspect_durable_state_file-load_example =
    inspect_durable_state_file-load toy serde disk (text "state.json")

abbrev snapshot : AuthorityArtifactSnapshot
snapshot = record {
  network_id = derive toy (text "lab");
  enrollment_token = none;
  membership = some certificate;
  capability_grants = grant ∷ [];
  revocations = revocation (text "guest") 1 ∷ [];
  bootstrap_hints = [];
}

abbrev seeded : DaemonState ℕ
seeded = refresh_candidates floats (record daemon {
  denied_peers = denied_peers toy certificate (revocation (text "guest") 1 ∷ []);
  relay_map = none;
  peers = bootstrap_peers [];
  path_candidates = [];
})

own_network : (derive toy (text "lab") != derive toy (text "lab")) ≡ false
own_network = ground arith

seeds : from_authority_snapshot floats toy (text "lab") (edge ∷ []) snapshot ≡ ok seeded
unfolding from_authority_snapshot issue_certificate
seeds = rw (own_network, from_authority_snapshot) refl

one_grant : IsConsistent snapshot
one_grant = ground (arith, same_grant_refl grant)

sync-from_authority_snapshot_example :
    (authority_snapshot toy seeded ≡ without_token snapshot)
    × ((t : DaemonState ℕ) × (sync_authority_snapshot floats toy seeded
            (derive toy (text "lab"))
            (without_token snapshot)
          ≡ ok (t, no_sync))
        × SameAuthority seeded t)
sync-from_authority_snapshot_example =
    sync-from_authority_snapshot floats toy (text "lab") (edge ∷ []) snapshot seeded seeds one_grant
