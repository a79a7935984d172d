-- ===== src/Routing/Costs.antt =====
-- How the parts of a score make up its total, and how scores compare.
use quipnet.Base.{ℕ, ◌+◌, ◌*◌, ◌≡◌, ◌≤◌, ◌<◌, arith, u32, u32_mod}
use quipnet.Model.{TrafficClass, control, interactive, bulk, background}
use quipnet.Routing.{PathCandidate, PathScoreBreakdown, score_breakdown, score}

-- The loss that enters the total: none for bulk traffic.
abbrev pub counted_loss : TrafficClass → PathScoreBreakdown → ℕ
counted_loss bulk s = 0
counted_loss _ s = s.loss_cost

-- One candidate is as good as another in every measure that a score reads.
pub record Dominates {F : Type 0} (scaled : F → ℕ → ℕ) (c d : PathCandidate F) : Type 0 where
  pub rtt : c.rtt_ms ≤ d.rtt_ms
  pub jitter : c.jitter_ms ≤ d.jitter_ms
  pub penalty : c.relay_penalty ≤ d.relay_penalty
  pub throughput : d.throughput_mbps ≤ c.throughput_mbps
  pub loss_latency : scaled c.loss_pct 10 ≤ scaled d.loss_pct 10
  pub loss_background : scaled c.loss_pct 8 ≤ scaled d.loss_pct 8

module _ {F : Type 0} (scaled : F → ℕ → ℕ) where
  -- Outside bulk traffic the total of a score is the sum of its five costs modulo 2^32; for bulk
  -- traffic it is the sum of the four others, since the loss that the breakdown lists is left out.
  pub score_breakdown_total :
      (c : PathCandidate F) (class : TrafficClass)
      → let s = score_breakdown scaled c class in
        s.total
        ≡ u32 (
            s.latency_cost
            + s.jitter_cost
            + s.throughput_cost
            + s.relay_cost
            + counted_loss class s)
  unfolding score_breakdown
  score_breakdown_total c control = omega arith
  score_breakdown_total c interactive = omega arith
  score_breakdown_total c bulk = omega arith
  score_breakdown_total c background = omega arith

  -- A candidate that is as good as another in every measure scores no more than it for any class,
  -- as long as the other's costs stay below 2^32.
  pub score_mono :
      (c d : PathCandidate F) (class : TrafficClass)
      → Dominates scaled c d
      → d.rtt_ms
          + d.jitter_ms * 2
          + d.relay_penalty
          + 250
          + scaled d.loss_pct 10
          + scaled d.loss_pct 8
        < u32_mod
      → score scaled c class ≤ score scaled d class
  unfolding score score_breakdown
  score_mono c d control h b = omega arith
  score_mono c d interactive h b = omega arith
  score_mono c d bulk h b = omega arith
  score_mono c d background h b = omega arith
