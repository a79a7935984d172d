-- ===== src/Tests/Decisions.antt =====
-- A choice of paths and a policy.
use quipnet.Base.{ℕ, ◌*◌, ◌≡◌, ◌+◌, u32, true, some, none, [], ◌∷◌, text}
use quipnet.Model.{interactive, bulk, direct_udp, relay}
use quipnet.Routing.{PathCandidate, score_breakdown, select_best_path, observed, authority_relay}
use quipnet.Routing.Costs.{score_breakdown_total}
use quipnet.Routing.Selection.{Choice, select_best_path-Choice}
use quipnet.Policy.{PolicyRule, allow, deny, evaluate}
use quipnet.Policy.Rules.{Verdict, evaluate-Verdict}

-- The loss as a whole percentage.
abbrev percent : ℕ → ℕ → ℕ
percent loss n = loss * n

abbrev near : PathCandidate ℕ
near = record {
  peer = text "server";
  path_kind = direct_udp;
  relay_peer = none;
  source = observed;
  traffic_classes = interactive ∷ bulk ∷ [];
  rtt_ms = 20;
  jitter_ms = 2;
  loss_pct = 1;
  throughput_mbps = 400;
  relay_penalty = 0;
}

abbrev relayed : PathCandidate ℕ
relayed = record {
  peer = text "server";
  path_kind = relay;
  relay_peer = some (text "relay");
  source = authority_relay;
  traffic_classes = interactive ∷ [];
  rtt_ms = 45;
  jitter_ms = 4;
  loss_pct = 2;
  throughput_mbps = 200;
  relay_penalty = 30;
}

score_breakdown_total_example :
    (score_breakdown percent relayed bulk).total ≡ u32 (0 + 0 + 200 + 30 + 0)
unfolding score_breakdown
score_breakdown_total_example = score_breakdown_total percent relayed bulk

select_best_path-Choice_example :
    Choice percent
      (λ loss. true)
      (relayed ∷ near ∷ [])
      interactive
      (select_best_path percent (λ loss. true) (relayed ∷ near ∷ []) interactive)
select_best_path-Choice_example =
    select_best_path-Choice percent (λ loss. true) (relayed ∷ near ∷ []) interactive

abbrev no_guests : PolicyRule
no_guests = record {
  effect = deny;
  network_id = none;
  protocol = none;
  source_peer = some (text "guest");
  required_capability = none;
}

abbrev anyone : PolicyRule
anyone = record {
  effect = allow;
  network_id = some (text "home");
  protocol = none;
  source_peer = none;
  required_capability = none;
}

evaluate-Verdict_example :
    Verdict
      (text "home")
      (text "client")
      (text "/quip/1")
      []
      (no_guests ∷ anyone ∷ [])
      (evaluate (no_guests ∷ anyone ∷ []) (text "home") (text "client") (text "/quip/1") [])
evaluate-Verdict_example =
    evaluate-Verdict (text "home") (text "client") (text "/quip/1") [] (no_guests ∷ anyone ∷ [])
