-- ===== src/Fabric/Paths/Listing.antt =====
-- `runtime_paths` of crates/fabric/src/lib.rs with its order, and the methods that list listeners,
-- health and events.
use quipnet.Base.{
  ℕ, Bool, ◌&&◌, none, some, List, [], ◌∷◌, ◌++◌, map, ltb, ◌==◌, bytes_eq, bytes_lt, option_eq,
  nat_eq, any, count, if◌then◌else◌,
}
use quipnet.Base.Sorting.{sort_by}
use quipnet.Model.{PeerId, TrafficClass}
use quipnet.PeerText.{to_text}
use quipnet.Control.{is_some}
use quipnet.PeerStore.{PeerInspection}
use quipnet.Routing.{class_eq}
use quipnet.Transport.{RuntimeListenerSnapshot, RuntimeEvent}
use quipnet.Fabric.State.{DaemonState, path_candidates_for}
use quipnet.Fabric.Exec.{Exec, pure, reads, ◌>>=◌}
use quipnet.Fabric.Plane.{Plane, ensure_state}
use quipnet.Fabric.Runtime
use quipnet.Fabric.Runtime.{RuntimeHealthReport, health_report}
use quipnet.Fabric.Alternatives.{runtime_class_rank, runtime_path_state_rank}
use quipnet.Fabric.Paths.{
  RuntimePathSnapshot, active_path, add_attempts, add_suppressions, add_terminal, best,
  candidate_path, id_lt, path_classes,
}

module _ {F S : Type 0} (p : Plane F S) where
  -- The inner loop, over the classes.
  add_classes :
      DaemonState F
      → PeerId
      → List TrafficClass
      → List (RuntimePathSnapshot F)
      → List (RuntimePathSnapshot F)
  unfolding candidate_path
  add_classes s peer [] paths = paths
  add_classes s peer (class ∷ classes) paths = add_classes s peer classes (
      if any (λ e. (e.peer == peer) && (e.class == class)) paths
      then paths
      else elim (best p s peer class) [
        | none ↦ paths
        | some decision ↦ paths ++ candidate_path p s peer class decision ∷ []
      ])

  -- A peer without candidates is passed over: it has no best path for any class.
  add_peers :
      DaemonState F
      → List PeerInspection
      → List (RuntimePathSnapshot F)
      → List (RuntimePathSnapshot F)
  unfolding add_classes
  add_peers s [] paths = paths
  add_peers s (x ∷ xs) paths = add_peers s xs (elim (path_candidates_for s x.snapshot.peer) [
    | [] ↦ paths
    | _ ∷ _ ↦ add_classes s x.snapshot.peer path_classes paths
  ])

  -- The order of the list.
  path_lt : RuntimePathSnapshot F → RuntimePathSnapshot F → Bool
  path_lt l r =
      let a = to_text p.crypto l.peer in
      let b = to_text p.crypto r.peer in
      let i = runtime_class_rank l.class in
      let j = runtime_class_rank r.class in
      let m = runtime_path_state_rank l.state in
      let n = runtime_path_state_rank r.state in
      if a == b
      then if i == j then if m == n then id_lt l.session_id r.session_id else ltb m n else ltb i j
      else bytes_lt a b

  unfoldable pub runtime_paths : Exec S (List (RuntimePathSnapshot F))
  unfolding active_path add_suppressions add_attempts add_terminal add_peers path_lt
  runtime_paths = do
    s ← ensure_state p
    sessions ← reads p.transport.active_sessions
    suppressions ← reads p.transport.reconnect_suppressions
    attempts ← reads p.transport.reconnect_attempts
    terminal ← reads (p.transport.recent_terminal_sessions 16)
    pure (
        sort_by path_lt (
          add_peers s s.peers (
            add_terminal p s terminal (
              add_attempts p s attempts
                (add_suppressions p s suppressions (map (active_path p s) sessions))))))

  unfoldable pub runtime_listeners : Exec S (List RuntimeListenerSnapshot)
  runtime_listeners = do
    s ← ensure_state p
    listeners ← reads p.transport.active_listeners
    pure (Runtime.runtime_listeners p.crypto s listeners)

  unfoldable pub runtime_health : Exec S RuntimeHealthReport
  runtime_health = do
    s ← ensure_state p
    health ← reads p.transport.transport_health
    t ← ensure_state p
    listeners ← reads p.transport.active_listeners
    paths ← runtime_paths
    pure (
        health_report p.crypto s health (Runtime.runtime_listeners p.crypto t listeners)
          (count (λ (e : RuntimePathSnapshot F). is_some e.session_id) paths))

  unfoldable pub runtime_events : ℕ → Exec S (List RuntimeEvent)
  runtime_events limit = reads (p.transport.recent_events limit)
