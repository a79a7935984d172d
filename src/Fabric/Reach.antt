-- ===== src/Fabric/Reach.antt =====
-- Route plans that a relay map makes possible, in crates/fabric/src/lib.rs.
pub mod Synthesis
use quipnet.Base.{
  ℕ, Bool, true, false, not, ◌&&◌, ◌||◌, Option, none, some, List, [], ◌∷◌, ◌++◌, map, ◌≡◌, ◌≢◌,
  refl, arith, ◌==◌, bytes_eq, inl, inr, Bool-cases, Option-cases, any, keep, find, All, Result, ok,
  err, if◌then◌else◌, ap, sym, ◌∙◌, subst,
}
use quipnet.Base.Sets.{contains}
use quipnet.Model.{PeerId, ProtocolId, TrafficClass, relay}
use quipnet.Crypto.{Primitives}
use quipnet.Control.{is_some}
use quipnet.RelayWire.{RelayAnnouncement, RelayMap}
use quipnet.PeerStore.{PeerInspection}
use quipnet.Routing.{
  PathCandidate, PathDecision, observed, supports_class, kind_eq, select_best_path,
}
use quipnet.Routing.Selection.{Choice, nobody, chosen, select_best_path-Choice}
use quipnet.Transport.{RoutePlan}
use quipnet.Fabric.State.{
  DaemonState, DaemonStateError, daemon_peer, path_candidates_for, relay_announcements,
}
use quipnet.Fabric.Estimates.{Floats}
use quipnet.Fabric.Candidates.{merged_path_candidates, source_eq}
use quipnet.Fabric.Authority.{refresh_candidates}
use quipnet.Fabric.Routes.{best_path, route_plan}
use quipnet.Fabric.RoutePlans.{
  Planned, without_candidate, unknown_peer, without_relay, direct, relayed, route_plan-Planned,
}
use quipnet.Fabric.Denials.{is_some-find}
use quipnet.Fabric.Reach.Synthesis.{
  all_support, announced, is_announced, leads, fits, Fits, observed-Fits, merged-Fits, any-merged,
}

All-middle {ℓ κ} :
    {A : Type ℓ} (P : A → Type κ) (pre post : List A) (a : A) → All P (pre ++ a ∷ post) → P a
All-middle P [] post a h = h.0
All-middle P (x ∷ pre) post a h = All-middle P pre post a h.1

module _ {F : Type 0} (f : Floats F) (class : TrafficClass) (relays : List RelayAnnouncement)
    (p : PeerId) where
  kept-open :
      (cs : List (PathCandidate F))
      → Fits f class relays p cs
      → All (λ c. is_announced relays c ≡ true) (keep (λ c. c.peer == p) cs)
  kept-open [] h = tt
  kept-open (c ∷ cs) h = elim (Bool-cases (c.peer == p)) [
    | inl t ↦ rw t (ground (arith, h.0), kept-open cs h.1)
    | inr t ↦ rw t (kept-open cs h.1)
  ]

  kept-leads :
      (cs : List (PathCandidate F))
      → Fits f class relays p cs
      → any (leads p) cs ≡ true
      → keep (λ c. supports_class c class) (keep (λ c. c.peer == p) cs) ≢ []
  kept-leads [] h a e = cc
  kept-leads (c ∷ cs) h a e = elim (Bool-cases (leads p c)) [
    | inl t ↦ ground (arith, h.0)
    | inr t ↦ kept-leads cs h.1 (ground arith) (ground arith)
  ]

module _ {F : Type 0} (f : Floats F) (scaled : F → ℕ → ℕ) (at_least_one : F → Bool)
    (c : Primitives) where
  -- A plan that is made when the best candidate, and the peer, are there and the candidate is open.
  Planned-ok :
      (s : DaemonState F) (p : PeerId) (protocol : Option ProtocolId) (class : TrafficClass)
      (d : PathDecision F) (i : PeerInspection) (r : Result DaemonStateError RoutePlan)
      → Planned scaled at_least_one c s p protocol class r
      → best_path scaled at_least_one s p class ≡ some d
      → daemon_peer s p ≡ some i
      → is_announced (relay_announcements s) d.selected ≡ true
      → (plan : RoutePlan) × (r ≡ ok plan)
  Planned-ok s p protocol class d i _ (without_candidate b) e n o = cc
  Planned-ok s p protocol class d i _ (unknown_peer x b m) e n o = cc
  Planned-ok s p protocol class d i _ (without_relay x b k m) e n o =
      let same : x.selected ≡ d.selected = ground (arith, b, e) in
      let goes : is_announced (relay_announcements s) x.selected ≡ true =
        ap (is_announced (relay_announcements s)) same ∙ o in
      elim (Option-cases x.selected.relay_peer) [
        | inl l ↦ ground (arith, k, l, goes)
        | inr (q, l) ↦ ground (
          arith,
          k,
          l,
          goes,
          m q l,
          is_some-find (λ (r : RelayAnnouncement). r.peer_id == q) (relay_announcements s),
        )
      ]
  Planned-ok s p protocol class d i _ (direct x j plan b m k l w) e n o = (plan, refl)
  Planned-ok s p protocol class d i _ (relayed x j plan q a b m k l g w v) e n o = (plan, refl)

  selected-open :
      (relays : List RelayAnnouncement) (class : TrafficClass) (candidates : List (PathCandidate F))
      → All (λ c. is_announced relays c ≡ true) candidates
      → keep (λ c. supports_class c class) candidates ≢ []
      → (o : Option (PathDecision F)) → Choice scaled at_least_one candidates class o
      → (d : PathDecision F) × (o ≡ some d) × (is_announced relays d.selected ≡ true)
  selected-open relays class candidates h k _ (nobody e) = absurd (k e)
  selected-open relays class candidates h k _ (chosen d pre post e t l m w v) = (
    d,
    refl,
    All-middle _ pre post d.selected (subst (All (λ c. is_announced relays c ≡ true)) e h),
  )

  -- When a state with a relay map recomputes its candidates, it has a route plan to every peer that it
  -- lists and that is no relay, for a class that every relay of the map supports, if the map has a relay
  -- and no observed candidate of the peer goes through a relay that the map does not announce.
  pub route_plan-refresh_candidates :
      (s : DaemonState F) (m : RelayMap) (r : RelayAnnouncement) (rs : List RelayAnnouncement)
      (i : PeerInspection) (p : PeerId) (protocol : Option ProtocolId) (class : TrafficClass)
      → s.relay_map ≡ some m
      → m.relays ≡ r ∷ rs
      → all_support class (r ∷ rs) ≡ true
      → daemon_peer s p ≡ some i
      → contains p (map (λ (r : RelayAnnouncement). r.peer_id) (r ∷ rs)) ≡ false
      → All
          (λ c.
            (not (c.source == observed) || (not (c.peer == p) || is_announced (r ∷ rs) c)) ≡ true)
          s.path_candidates
      → (plan : RoutePlan) × (route_plan scaled at_least_one c
            (refresh_candidates f s)
            p
            protocol
            class
          ≡ ok plan)
  unfolding refresh_candidates best_path path_candidates_for daemon_peer relay_announcements
  route_plan-refresh_candidates s m r rs i p protocol class e l h n k o =
      let fit =
        merged-Fits f class (r ∷ rs) p s m e l h
          (observed-Fits f class (r ∷ rs) p s.path_candidates o) in
      let (d, b, u) =
        selected-open (r ∷ rs) class (path_candidates_for (refresh_candidates f s) p)
          (kept-open f class (r ∷ rs) p (merged_path_candidates f s) fit)
          (kept-leads f class (r ∷ rs) p (merged_path_candidates f s) fit
            (any-merged f class (r ∷ rs) p s m r rs i e l n k))
          (best_path scaled at_least_one (refresh_candidates f s) p class)
          (select_best_path-Choice scaled at_least_one
            (path_candidates_for (refresh_candidates f s) p) class) in
      Planned-ok (refresh_candidates f s) p protocol class d i _
        (route_plan-Planned scaled at_least_one c (refresh_candidates f s) p protocol class) b n
        (rw (e, relay_announcements) (rw l u))
