-- ===== src/Fabric/Rollups.antt =====
-- The readiness of the daemon as the worst of its parts' levels, in crates/fabric/src/lib.rs.
use quipnet.Base.{ℕ, ◌≡◌, refl, List, [], ◌∷◌, max, arith}
use quipnet.Fabric.Runtime.{
  RuntimeHealthLevel, ready, degraded, failed, suppressed, level_eq, runtime_rollup_health,
}

-- How bad a level is.
abbrev pub severity : RuntimeHealthLevel → ℕ
severity ready = 0
severity degraded = 1
severity suppressed = 2
severity failed = 3

abbrev pub worst : List RuntimeHealthLevel → ℕ
worst [] = 0
worst (l ∷ ls) = max (severity l) (worst ls)

-- The rolled-up level is as bad as the worst of the levels, and ready for none.
pub severity-runtime_rollup_health :
    (ls : List RuntimeHealthLevel) → severity (runtime_rollup_health ls) ≡ worst ls
unfolding runtime_rollup_health
severity-runtime_rollup_health [] = refl
severity-runtime_rollup_health (ready ∷ ls) = ground (arith, severity-runtime_rollup_health ls)
severity-runtime_rollup_health (degraded ∷ ls) = ground (arith, severity-runtime_rollup_health ls)
severity-runtime_rollup_health (suppressed ∷ ls) = ground (arith, severity-runtime_rollup_health ls)
severity-runtime_rollup_health (failed ∷ ls) = ground (arith, severity-runtime_rollup_health ls)
