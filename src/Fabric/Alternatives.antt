-- ===== src/Fabric/Alternatives.antt =====
-- The parts of a runtime path in crates/fabric/src/lib.rs: its state, the other candidates, and its
-- texts. A text that holds the summary of an explanation is a constructor with the arguments of the
-- format string; the other texts are byte strings.
use quipnet.Base.{
  ℕ, Bool, false, not, ◌&&◌, Option, none, some, List, [], ◌∷◌, ◌++◌, map, Bytes, text, decimal,
  ◌==◌, bytes_eq, option_eq, nat_eq, keep, holds, if◌then◌else◌,
}
use mathlib.Core.List.{List-discrete}
use quipnet.Base.Sorting.{sort_by_key}
use quipnet.Model.{
  PeerId, TrafficClass, TrafficClass-discrete, control, interactive, bulk, background, PathKind,
  relay,
}
use quipnet.Crypto.{Primitives}
use quipnet.PeerText.{to_text}
use quipnet.Routing.{
  PathSource, PathCandidate, PathDecision, PathExplanation, Summary, Remark, supports_class, score,
  explain, kind_eq, class_eq,
}
use quipnet.Transport.{
  RouteSource, SessionSnapshot, RuntimeSessionState, SessionClosureReason, operator_requested,
  local_runtime_failure, remote_failure, policy_rejected, path_exhaustion, daemon_shutdown,
  RuntimeReconnectAttempt, RuntimeReconnectAttemptState, backing_off,
}
use quipnet.Fabric.Candidates.{source_eq}

pub data RuntimePathState : Type 0 where
  candidate active degraded migrating failed suppressed : RuntimePathState

unfoldable pub runtime_path_state_from_session : RuntimeSessionState → RuntimePathState
runtime_path_state_from_session RuntimeSessionState.degraded = degraded
runtime_path_state_from_session RuntimeSessionState.migrating = migrating
runtime_path_state_from_session RuntimeSessionState.failed = failed
runtime_path_state_from_session RuntimeSessionState.closing = failed
runtime_path_state_from_session RuntimeSessionState.closed = failed
runtime_path_state_from_session _ = active

unfoldable pub runtime_class_rank : TrafficClass → ℕ
runtime_class_rank control = 0
runtime_class_rank interactive = 1
runtime_class_rank bulk = 2
runtime_class_rank background = 3

unfoldable pub runtime_path_state_rank : RuntimePathState → ℕ
runtime_path_state_rank active = 0
runtime_path_state_rank migrating = 1
runtime_path_state_rank degraded = 2
runtime_path_state_rank candidate = 3
runtime_path_state_rank suppressed = 4
runtime_path_state_rank failed = 5

unfoldable pub route_source_to_path_source : RouteSource → PathSource
route_source_to_path_source RouteSource.observed = PathSource.observed
route_source_to_path_source RouteSource.bootstrap = PathSource.bootstrap
route_source_to_path_source RouteSource.authority_relay = PathSource.authority_relay

pub record RuntimePathAlternative : Type 0 where
  pub path_kind : PathKind
  pub source : PathSource
  pub relay_peer : Option PeerId
  pub score : ℕ
  pub summary : Summary

-- The summary of a runtime path.
pub data PathSummary : Type 0 where
  explained : Summary → PathSummary
  plain : Bytes → PathSummary
  before : Bytes → Summary → PathSummary

-- `runtime_path_decision_reason`, with the remarks of the explanation.
pub data DecisionReason (F : Type 0) : Type 0 where
  strengths_and_tradeoffs : List (Remark F) → List (Remark F) → DecisionReason F
  strengths_only tradeoffs_only : List (Remark F) → DecisionReason F
  summarised : Summary → DecisionReason F

abbrev reason_of : {F : Type 0} → List (Remark F) → List (Remark F) → Summary → DecisionReason F
reason_of [] [] s = summarised s
reason_of [] (t ∷ ts) s = tradeoffs_only (t ∷ ts)
reason_of (g ∷ gs) [] s = strengths_only (g ∷ gs)
reason_of (g ∷ gs) (t ∷ ts) s = strengths_and_tradeoffs (g ∷ gs) (t ∷ ts)

unfoldable pub runtime_path_decision_reason : {F : Type 0} → PathExplanation F → DecisionReason F
runtime_path_decision_reason e = reason_of e.strengths e.tradeoffs e.summary

unfoldable pub runtime_candidate_matches_session :
    {F : Type 0} → PathCandidate F → SessionSnapshot → Bool
runtime_candidate_matches_session c session =
    (c.peer == session.peer)
    && ((c.path_kind == session.path_kind)
        && ((c.relay_peer == session.relay_peer) && supports_class c session.class))

-- `derive(PartialEq)` of a candidate, given the equality of floats.
unfoldable pub same_candidate :
    {F : Type 0} → (F → F → Bool) → PathCandidate F → PathCandidate F → Bool
same_candidate loss_eq a b =
    (a.peer == b.peer)
    && ((a.path_kind == b.path_kind)
        && ((a.relay_peer == b.relay_peer)
            && ((a.source == b.source)
                && (holds (List-discrete TrafficClass-discrete a.traffic_classes b.traffic_classes)
                    && ((a.rtt_ms == b.rtt_ms)
                        && ((a.jitter_ms == b.jitter_ms)
                            && (loss_eq a.loss_pct b.loss_pct
                                && ((a.throughput_mbps == b.throughput_mbps)
                                    && (a.relay_penalty == b.relay_penalty)))))))))

module _ {F : Type 0} (scaled : F → ℕ → ℕ) (at_least_one : F → Bool) (loss_eq : F → F → Bool) where
  abbrev is_selected : PathCandidate F → Option (PathCandidate F) → Bool
  is_selected c none = false
  is_selected c (some s) = same_candidate loss_eq c s

  abbrev alternative : TrafficClass → PathCandidate F → RuntimePathAlternative
  alternative class c = record {
    path_kind = c.path_kind;
    source = c.source;
    relay_peer = c.relay_peer;
    score = score scaled c class;
    summary = (explain scaled at_least_one c class).summary;
  }

  unfoldable pub runtime_path_alternatives :
      List (PathCandidate F) → TrafficClass → Option (PathCandidate F) → List RuntimePathAlternative
  runtime_path_alternatives candidates class selected = map (alternative class) (
      sort_by_key (λ c. score scaled c class)
        (keep (λ c. not (is_selected c selected)) (keep (λ c. supports_class c class) candidates)))

abbrev or_text : Option Bytes → Bytes → Bytes
or_text none d = d
or_text (some s) d = s

unfoldable pub runtime_session_endpoint_summary : SessionSnapshot → Bytes
runtime_session_endpoint_summary s =
    if s.path_kind == relay
    then text "relay="
      ++ (or_text s.relay_endpoint (text "unknown-relay-endpoint")
          ++ (text " destination=" ++ s.remote_endpoint))
    else s.remote_endpoint

unfoldable pub session_closure_reason_phrase : SessionClosureReason → Bytes
session_closure_reason_phrase operator_requested = text "operator requested closure"
session_closure_reason_phrase local_runtime_failure = text "the local runtime failed"
session_closure_reason_phrase remote_failure = text "the remote peer failed"
session_closure_reason_phrase policy_rejected = text "authority or policy rejected the session"
session_closure_reason_phrase path_exhaustion = text "no eligible path remained"
session_closure_reason_phrase daemon_shutdown = text "the daemon shut down"

abbrev kind_word : PathKind → Bytes
kind_word relay = text "relay"
kind_word _ = text "direct"

abbrev outcome_word : RuntimeSessionState → Bytes
outcome_word RuntimeSessionState.closed = text "closed"
outcome_word RuntimeSessionState.failed = text "failed"
outcome_word _ = text "terminal"

abbrev terminal_reason : Option Bytes → Option SessionClosureReason → Bytes
terminal_reason (some s) _ = s
terminal_reason none (some r) = session_closure_reason_phrase r
terminal_reason none none = text "runtime session is no longer active"

module _ (c : Primitives) where
  unfoldable pub runtime_candidate_endpoint_summary : {F : Type 0} → PathCandidate F → Bytes
  runtime_candidate_endpoint_summary k =
      if k.path_kind == relay
      then text "relay="
        ++ (elim k.relay_peer [ none ↦ text "unknown-relay" | some q ↦ to_text c q ])
      else text "direct"

  unfoldable pub runtime_session_summary : SessionSnapshot → Bytes
  runtime_session_summary s =
      kind_word s.path_kind
      ++ (text " runtime path for "
          ++ (to_text c s.peer ++ (text " is " ++ runtime_session_endpoint_summary s)))

  unfoldable pub runtime_terminal_path_summary : SessionSnapshot → Bytes
  runtime_terminal_path_summary s =
      outcome_word s.state
      ++ (text " path for "
          ++ (to_text c s.peer
              ++ (text " is "
                  ++ (runtime_session_endpoint_summary s
                      ++ (text " because " ++ terminal_reason s.state_reason s.closure_reason)))))

  -- What is said of the best candidate: the prefix of the arm, and the summary.
  abbrev after_text : {F : Type 0} → Bytes → Option (PathDecision F) → PathSummary
  after_text prefix none = plain (prefix ++ text "no known runtime candidate path remains")
  after_text prefix (some d) = before prefix d.explanation.summary

  abbrev fallback_words : {F : Type 0} → Option (PathDecision F) → Bytes
  fallback_words none = []
  fallback_words (some d) =
      if d.selected.path_kind == relay
      then text "best known relay fallback remains "
      else text "best known direct path remains "

  abbrev tries_of : RuntimeReconnectAttempt → Bytes
  tries_of a = decimal a.attempt_count ++ (text "/" ++ decimal a.max_attempts)

  unfoldable pub runtime_reconnect_path_status :
      {F : Type 0}
      → RuntimeReconnectAttempt
      → Option (PathDecision F)
      → RuntimePathState × (Option Bytes × PathSummary)
  runtime_reconnect_path_status a selected = elim a.state [
    | backing_off ↦ (
      candidate,
      (
        some (
            text "attempt "
            ++ (tries_of a
                ++ (text " backing off until "
                    ++ (decimal a.next_attempt_unix_secs ++ (text " because " ++ a.reason))))),
        after_text
            (text "reconnect backing off for "
              ++ (to_text c a.peer ++ (text " after " ++ (tries_of a ++ text " attempts; "))))
            selected,
      ),
    )
    | RuntimeReconnectAttemptState.failed ↦ (
      failed,
      (
        some (
            text "reconnect exhausted " ++ (tries_of a ++ (text " attempts because " ++ a.reason))),
        after_text
            (text "reconnect failed for "
              ++ (to_text c a.peer
                  ++ (text " after "
                      ++ (tries_of a ++ (text " attempts; " ++ fallback_words selected)))))
            selected,
      ),
    )
  ]
