-- ===== src/Fabric/Reach/Synthesis.antt =====
-- The candidates that a relay map gives, in crates/fabric/src/lib.rs: each of them supports a class that
-- all relays support, and one of them leads to every peer that is no relay.
use quipnet.Base.{
  Bool, true, false, not, ◌&&◌, ◌||◌, Option, none, some, List, [], ◌∷◌, ◌++◌, map, ◌≡◌, arith,
  ◌==◌, bytes_eq, inl, inr, Bool-cases, Option-cases, any, keep, find, All, All-of_mem, All-append,
  any_sound, any_complete, ap, ◌∙◌,
}
use quipnet.Base.Sets.{contains}
use quipnet.Model.{PeerId, TrafficClass, relay}
use quipnet.RelayWire.{RelayAnnouncement, RelayMap}
use quipnet.Netcheck.{NetcheckReport}
use quipnet.PeerStore.{PeerInspection}
use quipnet.Routing.{PathCandidate, observed, authority_relay, supports_class, class_eq, kind_eq}
use quipnet.Fabric.State.{DaemonState, BootstrapEndpoint, daemon_peer}
use quipnet.Fabric.Estimates.{Floats, relay_traffic_classes}
use quipnet.Fabric.Addresses.{endpoint_path_kind, relay_path_kind, is_direct_quic_address}
use quipnet.Fabric.Candidates.{
  same_path, push_unique_candidate, push_all, direct_candidate, direct_candidates,
  synthesized_direct_bootstrap_candidates, relay_candidate, fallback_candidate, fallback_candidates,
  synthesized_relay_candidates, merged_path_candidates, source_eq,
}
use quipnet.Fabric.Denials.{any-append}

-- The announcement of every relay names the class.
abbrev pub all_support : TrafficClass → List RelayAnnouncement → Bool
all_support class [] = true
all_support class (r ∷ rs) =
    any (λ t. t == class) (relay_traffic_classes r.traffic_classes) && all_support class rs

abbrev pub announced : List RelayAnnouncement → Option PeerId → Bool
announced relays none = false
announced relays (some q) = any (λ r. r.peer_id == q) relays

module _ {F : Type 0} where
  -- A candidate that goes through a relay names one that is announced.
  abbrev pub is_announced : List RelayAnnouncement → PathCandidate F → Bool
  is_announced relays c = not (c.path_kind == relay) || announced relays c.relay_peer

  -- A candidate of a relay map.
  abbrev pub leads : PeerId → PathCandidate F → Bool
  leads p c = (c.peer == p) && (c.source == authority_relay)

  leads-same : (p : PeerId) (c d : PathCandidate F) → same_path c d ≡ true → leads p c ≡ leads p d
  unfolding same_path
  leads-same p c d h = ground arith

  any-push_unique_candidate :
      (p : PeerId) (cs : List (PathCandidate F)) (c : PathCandidate F)
      → any (leads p) (push_unique_candidate cs c) ≡ any (leads p) cs || leads p c
  unfolding push_unique_candidate
  any-push_unique_candidate p cs c = elim (Bool-cases (any (λ e. same_path e c) cs)) [
    | inl held ↦
        let (e, m, t) = any_sound (λ e. same_path e c) cs held in
        rw held
          (ground (arith, leads-same p e c t, λ (l : leads p e ≡ true). any_complete (leads p) m l))
    | inr new ↦ rw new (any-append (leads p) cs (c ∷ []) ∙ ground arith)
  ]

  any-push_all :
      (p : PeerId) (cs more : List (PathCandidate F))
      → any (leads p) (push_all cs more) ≡ any (leads p) cs || any (leads p) more
  unfolding push_all
  any-push_all p cs [] = ground arith
  any-push_all p cs (c ∷ more) =
      any-push_all p (push_unique_candidate cs c) more
      ∙ ground (arith, any-push_unique_candidate p cs c)

  All-push_all {κ} :
      (P : PathCandidate F → Type κ) (cs more : List (PathCandidate F))
      → All P cs
      → All P more
      → All P (push_all cs more)
  unfolding push_all push_unique_candidate
  All-push_all P cs [] h k = h
  All-push_all P cs (c ∷ more) h k = elim (Bool-cases (any (λ e. same_path e c) cs)) [
    | inl held ↦ rw held (All-push_all P cs more h k.1)
    | inr new ↦
        rw new (All-push_all P (cs ++ c ∷ []) more (All-append P cs (c ∷ []) h (k.0, tt)) k.1)
  ]

-- What holds of every candidate: one of the relay map supports the class, and one of the peer is open.
module _ {F : Type 0} (f : Floats F) (class : TrafficClass) (relays : List RelayAnnouncement)
    (p : PeerId) where
  abbrev pub fits : PathCandidate F → Bool
  fits c =
      (not (c.source == authority_relay) || supports_class c class)
      && (not (c.peer == p) || is_announced relays c)

  abbrev pub Fits : List (PathCandidate F) → Type 0
  Fits = All (λ c. fits c ≡ true)

  self_announced : All (λ (r : RelayAnnouncement). announced relays (some r.peer_id) ≡ true) relays
  self_announced =
      All-of_mem _ relays
        (λ r m. any_complete (λ (a : RelayAnnouncement). a.peer_id == r.peer_id) m (ground arith))

  directs-Fits :
      (n : NetcheckReport) (es : List BootstrapEndpoint) → Fits (direct_candidates f n es)
  unfolding direct_candidates direct_candidate endpoint_path_kind
  directs-Fits n [] = tt
  directs-Fits n (e ∷ es) = elim (Option-cases e.peer) [
    | inl m ↦ rw (m, direct_candidates) (directs-Fits n es)
    | inr (q, m) ↦ elim (Bool-cases (any (λ a. is_direct_quic_address a) e.addresses)) [
      | inl t ↦
          rw (m, direct_candidates) (rw (t, direct_candidates) (ground arith, directs-Fits n es))
      | inr t ↦ rw (m, direct_candidates) (rw t (directs-Fits n es))
    ]
  ]

  bootstrap-Fits : (s : DaemonState F) → Fits (synthesized_direct_bootstrap_candidates f s)
  unfolding synthesized_direct_bootstrap_candidates
  bootstrap-Fits s =
      elim (Bool-cases (not s.netcheck.udp_reachable && not s.netcheck.ipv6_reachable)) [
        | inl t ↦ rw t tt
        | inr t ↦ rw t (directs-Fits s.netcheck s.bootstrap)
      ]

  relays-Fits :
      (n : NetcheckReport) (rs : List RelayAnnouncement)
      → all_support class rs ≡ true
      → Fits (map (relay_candidate f n) rs)
  unfolding relay_candidate relay_path_kind supports_class
  relays-Fits n [] h = tt
  relays-Fits n (r ∷ rs) h = (ground arith, relays-Fits n rs (ground arith))

  through-Fits :
      (n : NetcheckReport) (q : PeerId) (rs : List RelayAnnouncement)
      → all_support class rs ≡ true
      → All (λ (r : RelayAnnouncement). announced relays (some r.peer_id) ≡ true) rs
      → Fits (map (fallback_candidate f n q) rs)
  unfolding fallback_candidate supports_class
  through-Fits n q [] h k = tt
  through-Fits n q (r ∷ rs) h k = (ground (arith, k.0), through-Fits n q rs (ground arith) k.1)

  fallbacks-Fits :
      (n : NetcheckReport) (ps : List PeerInspection)
      → all_support class relays ≡ true
      → Fits (fallback_candidates f n relays ps)
  unfolding fallback_candidates
  fallbacks-Fits n [] h = tt
  fallbacks-Fits n (i ∷ ps) h =
      elim (Bool-cases
        (contains i.snapshot.peer (map (λ (r : RelayAnnouncement). r.peer_id) relays))) [
          | inl t ↦ rw t (fallbacks-Fits n ps h)
          | inr t ↦ rw t (
              All-append _ (map (fallback_candidate f n i.snapshot.peer) relays)
                (fallback_candidates f n relays ps)
                (through-Fits n i.snapshot.peer relays h self_announced) (fallbacks-Fits n ps h))
        ]

  -- One of the candidates through a relay leads to a listed peer that is no relay.
  any-fallbacks :
      (n : NetcheckReport) (r : RelayAnnouncement) (rs : List RelayAnnouncement)
      (ps : List PeerInspection) (i : PeerInspection)
      → find (λ e. e.snapshot.peer == p) ps ≡ some i
      → contains p (map (λ (r : RelayAnnouncement). r.peer_id) (r ∷ rs)) ≡ false
      → any (leads p) (fallback_candidates f n (r ∷ rs) ps) ≡ true
  unfolding fallback_candidates fallback_candidate
  any-fallbacks n r rs [] i h k = cc
  any-fallbacks n r rs (e ∷ ps) i h k = elim (Bool-cases (e.snapshot.peer == p)) [
    | inl same ↦
        let named : e.snapshot.peer ≡ p = ground (arith, same) in
        let apart =
          ap (λ q. contains q (map (λ (r : RelayAnnouncement). r.peer_id) (r ∷ rs))) named ∙ k in
        rw apart (ground arith)
    | inr other ↦
        elim (Bool-cases
          (contains e.snapshot.peer (map (λ (r : RelayAnnouncement). r.peer_id) (r ∷ rs)))) [
            | inl t ↦ rw t (any-fallbacks n r rs ps i (ground arith) k)
            | inr t ↦ rw t (
                any-append (leads p) (map (fallback_candidate f n e.snapshot.peer) (r ∷ rs))
                  (fallback_candidates f n (r ∷ rs) ps)
                ∙ ground (arith, any-fallbacks n r rs ps i (ground arith) k))
          ]
  ]

  any-synthesized :
      (s : DaemonState F) (m : RelayMap) (r : RelayAnnouncement) (rs : List RelayAnnouncement)
      (i : PeerInspection)
      → s.relay_map ≡ some m
      → m.relays ≡ r ∷ rs
      → daemon_peer s p ≡ some i
      → contains p (map (λ (r : RelayAnnouncement). r.peer_id) (r ∷ rs)) ≡ false
      → any (leads p) (synthesized_relay_candidates f s) ≡ true
  unfolding synthesized_relay_candidates daemon_peer
  any-synthesized s m r rs i e l h k =
      rw (e, synthesized_relay_candidates)
        (rw l (
          any-append (leads p) (map (relay_candidate f s.netcheck) (r ∷ rs))
            (fallback_candidates f s.netcheck (r ∷ rs) s.peers)
          ∙ ground (arith, any-fallbacks s.netcheck r rs s.peers i h k)))

  pub merged-Fits :
      (s : DaemonState F) (m : RelayMap)
      → s.relay_map ≡ some m
      → m.relays ≡ relays
      → all_support class relays ≡ true
      → Fits (keep (λ c. c.source == observed) s.path_candidates)
      → Fits (merged_path_candidates f s)
  unfolding merged_path_candidates synthesized_relay_candidates
  merged-Fits s m e l h k =
      All-push_all _ _ (synthesized_relay_candidates f s)
        (All-push_all _ _ (synthesized_direct_bootstrap_candidates f s) k (bootstrap-Fits s))
        (rw (e, synthesized_relay_candidates)
          (rw l (
            All-append _ (map (relay_candidate f s.netcheck) relays)
              (fallback_candidates f s.netcheck relays s.peers) (relays-Fits s.netcheck relays h)
              (fallbacks-Fits s.netcheck s.peers h))))

  pub any-merged :
      (s : DaemonState F) (m : RelayMap) (r : RelayAnnouncement) (rs : List RelayAnnouncement)
      (i : PeerInspection)
      → s.relay_map ≡ some m
      → m.relays ≡ r ∷ rs
      → daemon_peer s p ≡ some i
      → contains p (map (λ (r : RelayAnnouncement). r.peer_id) (r ∷ rs)) ≡ false
      → any (leads p) (merged_path_candidates f s) ≡ true
  unfolding merged_path_candidates
  any-merged s m r rs i e l h k =
      any-push_all p _ (synthesized_relay_candidates f s)
      ∙ ground (arith, any-synthesized s m r rs i e l h k)

  pub observed-Fits :
      (cs : List (PathCandidate F))
      → All
          (λ c. (not (c.source == observed) || (not (c.peer == p) || is_announced relays c)) ≡ true)
          cs
      → Fits (keep (λ c. c.source == observed) cs)
  observed-Fits [] h = tt
  observed-Fits (c ∷ cs) h = elim (Bool-cases (c.source == observed)) [
    | inl t ↦ rw t (ground (arith, t, h.0), observed-Fits cs h.1)
    | inr t ↦ rw t (observed-Fits cs h.1)
  ]
