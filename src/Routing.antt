-- ===== src/Routing.antt =====
-- crates/routing/src/lib.rs: scores of path candidates and the choice of the best one.
-- The 32-bit float of a candidate's loss stays abstract: `F` is its type, `scaled l k` stands for
-- `(l * k) as u32`, and `at_least_one` for `l >= 1.0`. Sums wrap at 2^32, as release builds do.
-- The remarks of an explanation are its format strings with their arguments.
pub mod Costs
pub mod Selection
use quipnet.Base.{
  ℕ, ◌+◌, ◌*◌, ◌/◌, ◌-◌, Bool, true, false, Option, none, some, List, [], ◌∷◌, ◌++◌, Bytes, Eq,
  ◌==◌, u32, if◌then◌else◌, ltb, leb, any, keep, nat_eq,
}
use quipnet.Model.{
  PeerId, PathKind, PathKind-discrete, relay, TrafficClass, TrafficClass-discrete, control,
  interactive, bulk, background,
}

pub data PathSource : Type 0 where
  observed bootstrap authority_relay : PathSource

pub record PathCandidate (F : Type 0) : Type 0 where
  pub peer : PeerId
  pub path_kind : PathKind
  pub relay_peer : Option PeerId
  pub source : PathSource
  pub traffic_classes : List TrafficClass
  pub rtt_ms : ℕ
  pub jitter_ms : ℕ
  pub loss_pct : F
  pub throughput_mbps : ℕ
  pub relay_penalty : ℕ

pub record PathScoreBreakdown : Type 0 where
  pub total : ℕ
  pub latency_cost : ℕ
  pub jitter_cost : ℕ
  pub loss_cost : ℕ
  pub throughput_cost : ℕ
  pub relay_cost : ℕ

pub data Remark (F : Type 0) : Type 0 where
  low_rtt high_throughput elevated_jitter : ℕ → Remark F
  direct_routing relay_hop : Remark F
  reachable_through : PeerId → Remark F
  elevated_loss : F → Remark F

-- The arguments of the summary's format string.
pub record Summary : Type 0 where
  pub path_kind : PathKind
  pub peer : PeerId
  pub via : Option PeerId
  pub source : PathSource
  pub total : ℕ
  pub class : TrafficClass

pub record PathExplanation (F : Type 0) : Type 0 where
  pub class : TrafficClass
  pub score : PathScoreBreakdown
  pub summary : Summary
  pub strengths : List (Remark F)
  pub tradeoffs : List (Remark F)

pub record PathDecision (F : Type 0) : Type 0 where
  pub selected : PathCandidate F
  pub class : TrafficClass
  pub explanation : PathExplanation F

instance abbrev pub class_eq : Eq TrafficClass
class_eq = record { dec = TrafficClass-discrete }

instance abbrev pub kind_eq : Eq PathKind
kind_eq = record { dec = PathKind-discrete }

unfoldable pub supports_class : {F : Type 0} → PathCandidate F → TrafficClass → Bool
supports_class c class = any (λ t. t == class) c.traffic_classes

-- `if cond { list.push(item) }` on a list built in order.
abbrev push_if : {A : Type 0} → Bool → A → List A
push_if true a = a ∷ []
push_if false a = []

-- `Iterator::min_by_key`: of several least elements the first.
unfoldable pub min_from : {A : Type 0} → (A → ℕ) → A → List (A) → A
min_from key best [] = best
min_from key best (c ∷ cs) = min_from key (if ltb (key c) (key best) then c else best) cs

unfoldable pub min_by_key : {A : Type 0} → (A → ℕ) → List (A) → Option (A)
unfolding min_from
min_by_key key [] = none
min_by_key key (c ∷ cs) = some (min_from key c cs)

module _ {F : Type 0} (scaled : F → ℕ → ℕ) where
  -- The arm of `Control | Interactive`.
  latency_score : PathCandidate F → PathScoreBreakdown
  latency_score c = record {
    total =
        u32 (u32 (u32 (c.rtt_ms + u32 (c.jitter_ms * 2)) + c.relay_penalty) + scaled c.loss_pct 10);
    latency_cost = c.rtt_ms;
    jitter_cost = u32 (c.jitter_ms * 2);
    loss_cost = scaled c.loss_pct 10;
    throughput_cost = 0;
    relay_cost = c.relay_penalty;
  }

  unfoldable pub score_breakdown : PathCandidate F → TrafficClass → PathScoreBreakdown
  unfolding latency_score
  score_breakdown c control = latency_score c
  score_breakdown c interactive = latency_score c
  score_breakdown c bulk = record {
    total = u32 (c.relay_penalty + (250 - c.throughput_mbps / 4));
    latency_cost = 0;
    jitter_cost = 0;
    loss_cost = scaled c.loss_pct 20;
    throughput_cost = 250 - c.throughput_mbps / 4;
    relay_cost = c.relay_penalty;
  }
  score_breakdown c background = record {
    total = u32 (u32 (c.relay_penalty + c.rtt_ms / 2) + scaled c.loss_pct 8);
    latency_cost = c.rtt_ms / 2;
    jitter_cost = 0;
    loss_cost = scaled c.loss_pct 8;
    throughput_cost = 0;
    relay_cost = c.relay_penalty;
  }

  unfoldable pub score : PathCandidate F → TrafficClass → ℕ
  score c class = (score_breakdown c class).total

  module _ (at_least_one : F → Bool) where
    through : PathCandidate F → List (Remark F)
    through c = elim c.relay_peer [ none ↦ [] | some p ↦ reachable_through p ∷ [] ]

    unfoldable pub explain : PathCandidate F → TrafficClass → PathExplanation F
    unfolding through
    explain c class = record {
      class = class;
      score = score_breakdown c class;
      summary = record {
        path_kind = c.path_kind;
        peer = c.peer;
        via = c.relay_peer;
        source = c.source;
        total = score c class;
        class = class;
      };
      strengths =
          push_if (leb c.rtt_ms 25) (low_rtt c.rtt_ms)
          ++ (push_if (leb 500 c.throughput_mbps) (high_throughput c.throughput_mbps)
              ++ (push_if (c.relay_penalty == 0) direct_routing
                  ++ (if c.path_kind == relay then through c else [])));
      tradeoffs =
          push_if (c.path_kind == relay) relay_hop
          ++ (push_if (at_least_one c.loss_pct) (elevated_loss c.loss_pct)
              ++ push_if (leb 10 c.jitter_ms) (elevated_jitter c.jitter_ms));
    }

    unfoldable pub select_best_path :
        List (PathCandidate F) → TrafficClass → Option (PathDecision F)
    unfolding min_by_key
    select_best_path candidates class =
        elim (min_by_key (λ c. score c class) (keep (λ c. supports_class c class) candidates)) [
          | none ↦ none
          | some selected ↦
              some (record {
                selected = selected;
                class = class;
                explanation = explain selected class;
              })
        ]
