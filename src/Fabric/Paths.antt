-- ===== src/Fabric/Paths.antt =====
-- `runtime_paths` of crates/fabric/src/lib.rs: the paths of the active sessions, the suppressed
-- targets, the reconnect attempts and the sessions that ended. Listing has the whole list.
pub mod Listing
use quipnet.Base.{
  ℕ, Bool, true, false, ◌&&◌, Option, none, some, List, [], ◌∷◌, ◌++◌, map, Bytes, text, ltb, ◌==◌,
  bytes_eq, bytes_lt, option_eq, nat_eq, any, find, count, if◌then◌else◌,
}
use quipnet.Base.Sorting.{sort_by}
use quipnet.Model.{
  PeerId, ProtocolId, TrafficClass, control, interactive, bulk, background, PathKind,
}
use quipnet.PeerText.{to_text}
use quipnet.Control.{is_some, or_else}
use quipnet.PeerStore.{PeerInspection}
use quipnet.Routing.{
  PathSource, PathCandidate, PathDecision, PathExplanation, select_best_path, explain, score,
  class_eq,
}
use quipnet.Transport.{
  SessionSnapshot, ReconnectSuppression, RuntimeReconnectAttempt, RuntimeListenerSnapshot,
  RuntimeEvent,
}
use quipnet.Fabric.State.{DaemonState, path_candidates_for}
use quipnet.Fabric.Exec.{Exec, pure, reads, ◌>>=◌}
use quipnet.Fabric.Plane.{Plane, ensure_state}
use quipnet.Fabric.Runtime
use quipnet.Fabric.Runtime.{RuntimeHealthReport, health_report}
use quipnet.Fabric.Alternatives.{
  RuntimePathState, candidate, failed, suppressed, runtime_path_state_from_session,
  runtime_class_rank, runtime_path_state_rank, route_source_to_path_source, RuntimePathAlternative,
  PathSummary, explained, plain, before, DecisionReason, runtime_path_decision_reason,
  runtime_candidate_matches_session, runtime_path_alternatives, runtime_session_endpoint_summary,
  runtime_candidate_endpoint_summary, runtime_session_summary, runtime_terminal_path_summary,
  runtime_reconnect_path_status,
}

pub record RuntimePathSnapshot (F : Type 0) : Type 0 where
  pub session_id : Option Bytes
  pub peer : PeerId
  pub protocol : Option ProtocolId
  pub class : TrafficClass
  pub state : RuntimePathState
  pub path_kind : Option PathKind
  pub source : Option PathSource
  pub relay_peer : Option PeerId
  pub endpoint_summary : Bytes
  pub state_reason : Option Bytes
  pub decision_reason : Option (DecisionReason F)
  pub score : Option ℕ
  pub summary : PathSummary
  pub alternatives : List RuntimePathAlternative

-- `Option::map`.
abbrev opt_map : {A B : Type 0} → (A → B) → Option A → Option B
opt_map f none = none
opt_map f (some a) = some (f a)

abbrev opt_bind : {A B : Type 0} → (A → Option B) → Option A → Option B
opt_bind f none = none
opt_bind f (some a) = f a

abbrev or_else_text : Option Bytes → Bytes → Bytes
or_else_text none d = d
or_else_text (some s) d = s

abbrev explained_or : {F : Type 0} → Option (PathExplanation F) → Bytes → PathSummary
explained_or none d = plain d
explained_or (some e) d = explained e.summary

abbrev chosen_or : {F : Type 0} → Bytes → Option (PathDecision F) → Bytes → PathSummary
chosen_or prefix none d = plain d
chosen_or prefix (some decision) d = before prefix decision.explanation.summary

abbrev path_classes : List TrafficClass
path_classes = control ∷ interactive ∷ bulk ∷ background ∷ []

-- `Option<[u8; 16]>` in order: `None` first.
abbrev id_lt : Option Bytes → Option Bytes → Bool
id_lt none (some _) = true
id_lt (some a) (some b) = bytes_lt a b
id_lt _ none = false

module _ {F S : Type 0} (p : Plane F S) where
  -- The first candidate that a session runs along.
  unfoldable pub selected_for : List (PathCandidate F) → SessionSnapshot → Option (PathCandidate F)
  selected_for candidates session =
      find (λ c. runtime_candidate_matches_session c session) candidates

  -- The path of a session; `state` and `summary` differ between the two loops over sessions.
  unfoldable pub session_path :
      DaemonState F
      → SessionSnapshot
      → RuntimePathState
      → (Option (PathExplanation F) → PathSummary)
      → RuntimePathSnapshot F
  unfolding selected_for
  session_path s session state summary =
      let candidates = path_candidates_for s session.peer in
      let selected = selected_for candidates session in
      let explanation = opt_map (λ c. explain p.scaled p.at_least_one c session.class) selected in
      record {
        session_id = some session.session_id;
        peer = session.peer;
        protocol = session.protocol;
        class = session.class;
        state = state;
        path_kind = some session.path_kind;
        source =
            or_else (opt_map (λ (c : PathCandidate F). c.source) selected)
              (some (route_source_to_path_source session.source));
        relay_peer = session.relay_peer;
        endpoint_summary = runtime_session_endpoint_summary session;
        state_reason = session.state_reason;
        decision_reason = opt_map runtime_path_decision_reason explanation;
        score = opt_map (λ c. score p.scaled c session.class) selected;
        summary = summary explanation;
        alternatives =
            runtime_path_alternatives p.scaled p.at_least_one p.loss_eq candidates session.class
              selected;
      }

  -- A path without a session, along the best candidate of the peer.
  unfoldable pub target_path :
      DaemonState F
      → PeerId
      → Option ProtocolId
      → TrafficClass
      → Option (PathDecision F)
      → RuntimePathState
      → Bytes
      → Option Bytes
      → PathSummary
      → RuntimePathSnapshot F
  target_path s peer protocol class decision state missing state_reason summary =
      let selected = opt_map (λ (d : PathDecision F). d.selected) decision in
      record {
        session_id = none;
        peer = peer;
        protocol = protocol;
        class = class;
        state = state;
        path_kind = opt_map (λ (c : PathCandidate F). c.path_kind) selected;
        source = opt_map (λ (c : PathCandidate F). c.source) selected;
        relay_peer = opt_bind (λ (c : PathCandidate F). c.relay_peer) selected;
        endpoint_summary =
            or_else_text (opt_map (runtime_candidate_endpoint_summary p.crypto) selected) missing;
        state_reason = state_reason;
        decision_reason =
            opt_map (λ (d : PathDecision F). runtime_path_decision_reason d.explanation) decision;
        score = opt_map (λ c. score p.scaled c class) selected;
        summary = summary;
        alternatives =
            runtime_path_alternatives p.scaled p.at_least_one p.loss_eq (path_candidates_for s peer)
              class selected;
      }

  abbrev best : DaemonState F → PeerId → TrafficClass → Option (PathDecision F)
  best s peer class = select_best_path p.scaled p.at_least_one (path_candidates_for s peer) class

  -- The path names the target.
  abbrev is_at : PeerId → Option ProtocolId → TrafficClass → RuntimePathSnapshot F → Bool
  is_at peer protocol class entry =
      (entry.peer == peer) && ((entry.protocol == protocol) && (entry.class == class))

  active_path : DaemonState F → SessionSnapshot → RuntimePathSnapshot F
  unfolding session_path
  active_path s session =
      session_path s session (runtime_path_state_from_session session.state)
        λ e. explained_or e (runtime_session_summary p.crypto session)

  suppressed_path : DaemonState F → ReconnectSuppression → RuntimePathSnapshot F
  unfolding target_path
  suppressed_path s x =
      let decision = best s x.peer x.class in
      let prefix = text "reconnect suppressed for " ++ to_text p.crypto x.peer in
      target_path s x.peer x.protocol x.class decision suppressed (text "no active runtime path")
        (some x.reason)
        (chosen_or (prefix ++ text ": ") decision (prefix ++ (text " because " ++ x.reason)))

  add_suppressions :
      DaemonState F
      → List ReconnectSuppression
      → List (RuntimePathSnapshot F)
      → List (RuntimePathSnapshot F)
  unfolding suppressed_path
  add_suppressions s [] paths = paths
  add_suppressions s (x ∷ xs) paths = add_suppressions s xs (
      if any (λ e. is_some e.session_id && is_at x.peer x.protocol x.class e) paths
      then paths
      else paths ++ suppressed_path s x ∷ [])

  attempt_path : DaemonState F → RuntimeReconnectAttempt → RuntimePathSnapshot F
  unfolding target_path
  attempt_path s x =
      let decision = best s x.peer x.class in
      let (state, (state_reason, summary)) = runtime_reconnect_path_status p.crypto x decision in
      target_path s x.peer x.protocol x.class decision state
        (text "no known runtime candidate path") state_reason summary

  add_attempts :
      DaemonState F
      → List RuntimeReconnectAttempt
      → List (RuntimePathSnapshot F)
      → List (RuntimePathSnapshot F)
  unfolding attempt_path
  add_attempts s [] paths = paths
  add_attempts s (x ∷ xs) paths = add_attempts s xs (
      if any (is_at x.peer x.protocol x.class) paths then paths else paths ++ attempt_path s x ∷ [])

  add_terminal :
      DaemonState F
      → List SessionSnapshot
      → List (RuntimePathSnapshot F)
      → List (RuntimePathSnapshot F)
  unfolding session_path
  add_terminal s [] paths = paths
  add_terminal s (x ∷ xs) paths = add_terminal s xs (
      if any (is_at x.peer x.protocol x.class) paths
      then paths
      else paths
        ++ session_path s x failed (λ _. plain (runtime_terminal_path_summary p.crypto x)) ∷ [])

  candidate_path : DaemonState F → PeerId → TrafficClass → PathDecision F → RuntimePathSnapshot F
  unfolding target_path
  candidate_path s peer class decision =
      target_path s peer none class (some decision) candidate []
        (some (text "known candidate path is not currently active"))
        (before (text "candidate path available for " ++ (to_text p.crypto peer ++ text ": "))
          decision.explanation.summary)
