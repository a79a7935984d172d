-- ===== src/Fabric/Refreshes.antt =====
-- What recomputing the path candidates does to a daemon's state, in crates/fabric/src/lib.rs.
use quipnet.Base.{
  Bool, false, not, ◌&&◌, ◌||◌, List, [], ◌∷◌, ◌++◌, map, Bytes, ◌≡◌, refl, arith, ◌==◌, bytes_eq,
  option_eq, any, keep, inl, inr, Bool-cases, Option-cases, ap, ◌∙◌, All,
}
use quipnet.Base.Sets.{contains}
use quipnet.RelayWire.{RelayAnnouncement}
use quipnet.PeerStore.{PeerInspection}
use quipnet.Netcheck.{NetcheckReport}
use quipnet.Routing.{PathCandidate, observed}
use quipnet.Fabric.State.{DaemonState, BootstrapEndpoint}
use quipnet.Fabric.Addresses.{is_direct_quic_address}
use quipnet.Fabric.Estimates.{Floats}
use quipnet.Fabric.Authority.{refresh_candidates}
use quipnet.Fabric.Candidates.{
  source_eq, same_path, push_unique_candidate, push_all, direct_candidate, direct_candidates,
  synthesized_direct_bootstrap_candidates, relay_candidate, fallback_candidate, fallback_candidates,
  synthesized_relay_candidates, merged_path_candidates,
}

any-snoc :
    {A : Type 0} (q : A → Bool) (xs : List A) (x : A) → any q (xs ++ x ∷ []) ≡ any q xs || q x
any-snoc q [] x = ground arith
any-snoc q (y ∷ xs) x = ground (arith, any-snoc q xs x)

module _ {F : Type 0} where
  abbrev pub is_observed : PathCandidate F → Bool
  is_observed c = c.source == observed

  -- No two candidates stand for the same path.
  abbrev pub Distinct : List (PathCandidate F) → Type 0
  Distinct [] = Unit {0}
  Distinct (c ∷ cs) = (any (λ d. same_path c d) cs ≡ false) × Distinct cs

  abbrev Synthesized : List (PathCandidate F) → Type 0
  Synthesized = All (λ c. is_observed c ≡ false)

  Synthesized-append :
      (xs ys : List (PathCandidate F)) → Synthesized xs → Synthesized ys → Synthesized (xs ++ ys)
  Synthesized-append [] ys h k = k
  Synthesized-append (x ∷ xs) ys h k = (h.0, Synthesized-append xs ys h.1 k)

  Distinct-snoc :
      (cs : List (PathCandidate F)) (c : PathCandidate F)
      → Distinct cs
      → any (λ e. same_path e c) cs ≡ false
      → Distinct (cs ++ c ∷ [])
  Distinct-snoc [] c h n = (refl, tt)
  Distinct-snoc (d ∷ cs) c h n = (
    any-snoc (λ e. same_path d e) cs c ∙ ground (arith, h.0),
    Distinct-snoc cs c h.1 (ground arith),
  )

  push_all-Distinct : (cs more : List (PathCandidate F)) → Distinct cs → Distinct (push_all cs more)
  unfolding push_all push_unique_candidate
  push_all-Distinct cs [] h = h
  push_all-Distinct cs (c ∷ more) h = elim (Bool-cases (any (λ e. same_path e c) cs)) [
    | inl held ↦ rw held (push_all-Distinct cs more h)
    | inr new ↦ rw new (push_all-Distinct (cs ++ c ∷ []) more (Distinct-snoc cs c h new))
  ]

  keep-snoc :
      (cs : List (PathCandidate F)) (c : PathCandidate F)
      → is_observed c ≡ false
      → keep is_observed (cs ++ c ∷ []) ≡ keep is_observed cs
  keep-snoc [] c h = ground arith
  keep-snoc (d ∷ cs) c h = ground (arith, keep-snoc cs c h)

  keep-push_all :
      (cs more : List (PathCandidate F))
      → Synthesized more
      → keep is_observed (push_all cs more) ≡ keep is_observed cs
  unfolding push_all push_unique_candidate
  keep-push_all cs [] h = refl
  keep-push_all cs (c ∷ more) h = elim (Bool-cases (any (λ e. same_path e c) cs)) [
    | inl held ↦ rw held (keep-push_all cs more h.1)
    | inr new ↦ rw new (keep-push_all (cs ++ c ∷ []) more h.1 ∙ keep-snoc cs c h.0)
  ]

  keep_twice :
      (cs : List (PathCandidate F)) → keep is_observed (keep is_observed cs) ≡ keep is_observed cs
  keep_twice [] = refl
  keep_twice (c ∷ cs) = ground (arith, keep_twice cs)

module _ {F : Type 0} (f : Floats F) where
  direct_candidates-Synthesized :
      (n : NetcheckReport) (es : List BootstrapEndpoint) → Synthesized (direct_candidates f n es)
  unfolding direct_candidates direct_candidate
  direct_candidates-Synthesized n [] = tt
  direct_candidates-Synthesized n (e ∷ es) = elim (Option-cases e.peer) [
    | inl m ↦ rw (m, direct_candidates) (direct_candidates-Synthesized n es)
    | inr (p, m) ↦ elim (Bool-cases (any (λ a. is_direct_quic_address a) e.addresses)) [
      | inl t ↦
          rw (m, direct_candidates)
            (rw (t, direct_candidates) (ground arith, direct_candidates-Synthesized n es))
      | inr t ↦ rw (m, direct_candidates) (rw t (direct_candidates-Synthesized n es))
    ]
  ]

  pub direct-Synthesized :
      (s : DaemonState F) → Synthesized (synthesized_direct_bootstrap_candidates f s)
  unfolding synthesized_direct_bootstrap_candidates
  direct-Synthesized s =
      elim (Bool-cases (not s.netcheck.udp_reachable && not s.netcheck.ipv6_reachable)) [
        | inl t ↦ rw t tt
        | inr t ↦ rw t (direct_candidates-Synthesized s.netcheck s.bootstrap)
      ]

  relays-Synthesized :
      (n : NetcheckReport) (rs : List RelayAnnouncement)
      → Synthesized (map (relay_candidate f n) rs)
  unfolding relay_candidate
  relays-Synthesized n [] = tt
  relays-Synthesized n (r ∷ rs) = (ground arith, relays-Synthesized n rs)

  through-Synthesized :
      (n : NetcheckReport) (p : Bytes) (rs : List RelayAnnouncement)
      → Synthesized (map (fallback_candidate f n p) rs)
  unfolding fallback_candidate
  through-Synthesized n p [] = tt
  through-Synthesized n p (r ∷ rs) = (ground arith, through-Synthesized n p rs)

  fallbacks-Synthesized :
      (n : NetcheckReport) (rs : List RelayAnnouncement) (ps : List PeerInspection)
      → Synthesized (fallback_candidates f n rs ps)
  unfolding fallback_candidates
  fallbacks-Synthesized n rs [] = tt
  fallbacks-Synthesized n rs (p ∷ ps) =
      elim (Bool-cases (contains p.snapshot.peer (map (λ (r : RelayAnnouncement). r.peer_id) rs))) [
        | inl t ↦ rw t (fallbacks-Synthesized n rs ps)
        | inr t ↦ rw t (
            Synthesized-append (map (fallback_candidate f n p.snapshot.peer) rs)
              (fallback_candidates f n rs ps) (through-Synthesized n p.snapshot.peer rs)
              (fallbacks-Synthesized n rs ps))
      ]

  pub relay-Synthesized : (s : DaemonState F) → Synthesized (synthesized_relay_candidates f s)
  unfolding synthesized_relay_candidates
  relay-Synthesized s = elim (Option-cases s.relay_map) [
    | inl e ↦ rw (e, synthesized_relay_candidates) tt
    | inr (m, e) ↦
        rw (e, synthesized_relay_candidates)
          (Synthesized-append (map (relay_candidate f s.netcheck) m.relays)
            (fallback_candidates f s.netcheck m.relays s.peers)
            (relays-Synthesized s.netcheck m.relays)
            (fallbacks-Synthesized s.netcheck m.relays s.peers))
  ]

  keep-merged_path_candidates :
      (s : DaemonState F)
      → keep is_observed (merged_path_candidates f s) ≡ keep is_observed s.path_candidates
  unfolding merged_path_candidates
  keep-merged_path_candidates s =
      keep-push_all
        (push_all (keep is_observed s.path_candidates)
          (synthesized_direct_bootstrap_candidates f s))
        (synthesized_relay_candidates f s) (relay-Synthesized s)
      ∙ (keep-push_all (keep is_observed s.path_candidates)
            (synthesized_direct_bootstrap_candidates f s) (direct-Synthesized s)
          ∙ keep_twice s.path_candidates)

  -- Recomputing the path candidates of a state a second time changes nothing, and keeps the observed
  -- candidates in their order.
  pub refresh_candidates_twice :
      (s : DaemonState F)
      → let t = refresh_candidates f s in
        (refresh_candidates f t ≡ t)
        × (keep is_observed t.path_candidates ≡ keep is_observed s.path_candidates)
  unfolding refresh_candidates merged_path_candidates push_all synthesized_relay_candidates
      synthesized_direct_bootstrap_candidates
  refresh_candidates_twice s = (
    ap
        (λ (observed : List (PathCandidate F)). record s {
          path_candidates =
              push_all (push_all observed (synthesized_direct_bootstrap_candidates f s))
                (synthesized_relay_candidates f s);
        })
        (keep-merged_path_candidates s),
    keep-merged_path_candidates s,
  )

  -- If no two observed candidates stand for the same path, no two candidates of the recomputed state do:
  -- with the same peer, kind, relay and source.
  pub refresh_candidates-Distinct :
      (s : DaemonState F)
      → Distinct (keep is_observed s.path_candidates)
      → Distinct (refresh_candidates f s).path_candidates
  unfolding refresh_candidates merged_path_candidates
  refresh_candidates-Distinct s h =
      push_all-Distinct _ (synthesized_relay_candidates f s)
        (push_all-Distinct _ (synthesized_direct_bootstrap_candidates f s) h)
