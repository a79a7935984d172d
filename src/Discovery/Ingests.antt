-- ===== src/Discovery/Ingests.antt =====
-- What an ingestion of bootstrap hints counts and writes.
use quipnet.Base.{
  ℕ, suc, ◌+◌, ◌≡◌, refl, sym, ◌∙◌, Bool, Option, none, some, List, [], ◌∷◌, ◌++◌, ◌==◌,
  if◌then◌else◌, find, length, All, arith, bytes_eq, ==_refl, subst,
}
use quipnet.Base.Maps.{get-insert}
use quipnet.Model.{PeerId}
use quipnet.PeerStore.{PeerSnapshot, PeerStore, peer_of, peer_status, upsert_peer_with_status}
use quipnet.Discovery.{
  DiscoveryHint, BootstrapIngestReport, peer_snapshot_eq, hint_snapshot, seen_status, counted,
  ingest, ingest_bootstrap,
}

-- All that a report counts.
abbrev pub total : BootstrapIngestReport → ℕ
total r = r.imported + r.updated + r.skipped

counted_total :
    (o : Option PeerSnapshot) (p : PeerSnapshot) (r : BootstrapIngestReport)
    → total (counted o p r) ≡ suc (total r)
unfolding counted
counted_total none p r = omega arith
counted_total (some e) p r = ground arith

ingest_total :
    (seen_at : ℕ) (hints : List DiscoveryHint) (s : PeerStore) (r : BootstrapIngestReport)
    → total (ingest seen_at hints s r).1 ≡ total r + length hints
unfolding ingest
ingest_total seen_at [] s r = omega arith
ingest_total seen_at (h ∷ hints) s r =
    let u = upsert_peer_with_status (hint_snapshot h) (seen_status seen_at) s in
    let k = counted (peer_of s h.peer) (hint_snapshot h) r in
    omega
      (arith, ingest_total seen_at hints u k, counted_total (peer_of s h.peer) (hint_snapshot h) r)

abbrev pub names : PeerId → DiscoveryHint → Bool
names p h = h.peer == p

module _ (seen_at : ℕ) (h : DiscoveryHint) (s : PeerStore) where
  peer_of-upsert :
      (p : PeerId)
      → peer_of (upsert_peer_with_status (hint_snapshot h) (seen_status seen_at) s) p
        ≡ (if h.peer == p then some (hint_snapshot h) else peer_of s p)
  unfolding upsert_peer_with_status peer_of
  peer_of-upsert p = get-insert h.peer p (hint_snapshot h) s.peers

  peer_status-upsert :
      (p : PeerId)
      → peer_status (upsert_peer_with_status (hint_snapshot h) (seen_status seen_at) s) p
        ≡ (if h.peer == p then some (seen_status seen_at) else peer_status s p)
  unfolding upsert_peer_with_status peer_status
  peer_status-upsert p = get-insert h.peer p (seen_status seen_at) s.statuses

-- A peer that no hint names keeps what the store has of it.
ingest_others :
    (seen_at : ℕ) (hints : List DiscoveryHint) (s : PeerStore) (r : BootstrapIngestReport)
    (p : PeerId)
    → find (names p) hints ≡ none
    → (peer_of (ingest seen_at hints s r).0 p ≡ peer_of s p)
      × (peer_status (ingest seen_at hints s r).0 p ≡ peer_status s p)
unfolding ingest
ingest_others seen_at [] s r p e = (refl, refl)
ingest_others seen_at (h ∷ hints) s r p e =
    let u = upsert_peer_with_status (hint_snapshot h) (seen_status seen_at) s in
    let k = counted (peer_of s h.peer) (hint_snapshot h) r in
    let (a, b) = ingest_others seen_at hints u k p (ground arith) in
    (
      a ∙ ground (arith, peer_of-upsert seen_at h s p),
      b ∙ ground (arith, peer_status-upsert seen_at h s p),
    )

ingest_last :
    (seen_at : ℕ) (pre post : List DiscoveryHint) (h : DiscoveryHint) (s : PeerStore)
    (r : BootstrapIngestReport)
    → find (names h.peer) post ≡ none
    → (peer_of (ingest seen_at (pre ++ h ∷ post) s r).0 h.peer ≡ some (hint_snapshot h))
      × (peer_status (ingest seen_at (pre ++ h ∷ post) s r).0 h.peer ≡ some (seen_status seen_at))
unfolding ingest
ingest_last seen_at [] post h s r e =
    let u = upsert_peer_with_status (hint_snapshot h) (seen_status seen_at) s in
    let k = counted (peer_of s h.peer) (hint_snapshot h) r in
    let (a, b) = ingest_others seen_at post u k h.peer e in
    (
      a ∙ ground (arith, peer_of-upsert seen_at h s h.peer),
      b ∙ ground (arith, peer_status-upsert seen_at h s h.peer),
    )
ingest_last seen_at (g ∷ pre) post h s r e =
    ingest_last seen_at pre post h
      (upsert_peer_with_status (hint_snapshot g) (seen_status seen_at) s)
      (counted (peer_of s g.peer) (hint_snapshot g) r) e

-- An ingestion counts every hint once, as imported, updated or skipped. The last hint for a peer is
-- what the store has of the peer afterwards, with the status of a bootstrap hint seen at that time.
pub ingest_bootstrap_lem :
    (seen_at : ℕ) (pre post : List DiscoveryHint) (h : DiscoveryHint) (s : PeerStore)
    → find (names h.peer) post ≡ none
    → let (t, r) = ingest_bootstrap (pre ++ h ∷ post) seen_at s in
      (total r ≡ length (pre ++ h ∷ post))
      × (peer_of t h.peer ≡ some (hint_snapshot h))
      × (peer_status t h.peer ≡ some (seen_status seen_at))
unfolding ingest_bootstrap
ingest_bootstrap_lem seen_at pre post h s e =
    let zero_report : BootstrapIngestReport = record { imported = 0; updated = 0; skipped = 0 } in
    let (a, b) = ingest_last seen_at pre post h s zero_report e in
    (ingest_total seen_at (pre ++ h ∷ post) s zero_report ∙ omega arith, a, b)

-- No two hints name the same peer.
abbrev pub IsDistinct : List DiscoveryHint → Type 0
IsDistinct [] = Unit {0}
IsDistinct (h ∷ hints) = (find (names h.peer) hints ≡ none) × IsDistinct hints

-- The store has what the hint says.
abbrev Knows : PeerStore → DiscoveryHint → Type 0
Knows s h = peer_of s h.peer ≡ some (hint_snapshot h)

Knows-upsert :
    (seen_at : ℕ) (h g : DiscoveryHint) (s : PeerStore)
    → Knows s h
    → Knows s g
    → Knows (upsert_peer_with_status (hint_snapshot h) (seen_status seen_at) s) g
Knows-upsert seen_at h g s a b = ground (arith, peer_of-upsert seen_at h s g.peer)

All-Knows-upsert :
    (seen_at : ℕ) (h : DiscoveryHint) (hints : List DiscoveryHint) (s : PeerStore)
    → Knows s h
    → All (Knows s) hints
    → All (Knows (upsert_peer_with_status (hint_snapshot h) (seen_status seen_at) s)) hints
All-Knows-upsert seen_at h [] s k a = tt
All-Knows-upsert seen_at h (g ∷ hints) s k a =
    (Knows-upsert seen_at h g s k a.0, All-Knows-upsert seen_at h hints s k a.1)

counted_known :
    (h : DiscoveryHint) (s : PeerStore) (r : BootstrapIngestReport)
    → Knows s h
    → counted (peer_of s h.peer) (hint_snapshot h) r ≡ record r { skipped = suc r.skipped }
unfolding counted
counted_known h s r k = rw k (rw (==_refl (hint_snapshot h)) refl)

-- Hints that the store has already are skipped.
ingest_known :
    (seen_at : ℕ) (hints : List DiscoveryHint) (s : PeerStore) (r : BootstrapIngestReport)
    → All (Knows s) hints
    → ((ingest seen_at hints s r).1.skipped ≡ r.skipped + length hints)
      × ((ingest seen_at hints s r).1.imported ≡ r.imported)
      × ((ingest seen_at hints s r).1.updated ≡ r.updated)
unfolding ingest
ingest_known seen_at [] s r a = (omega arith, refl, refl)
ingest_known seen_at (h ∷ hints) s r a =
    let u = upsert_peer_with_status (hint_snapshot h) (seen_status seen_at) s in
    let e : counted (peer_of s h.peer) (hint_snapshot h) r ≡ record r { skipped = suc r.skipped } =
      counted_known h s r a.0 in
    let (x, y, z) =
      ingest_known seen_at hints u (record r { skipped = suc r.skipped })
        (All-Knows-upsert seen_at h hints s a.0 a.1) in
    subst
      (λ q.
        ((ingest seen_at hints u q).1.skipped ≡ r.skipped + length (h ∷ hints))
        × ((ingest seen_at hints u q).1.imported ≡ r.imported)
        × ((ingest seen_at hints u q).1.updated ≡ r.updated))
      (sym e) (x ∙ omega arith, y, z)

-- After an ingestion the store has what the hints say.
All-Knows-ingest :
    (seen_at : ℕ) (hints : List DiscoveryHint) (s : PeerStore) (r : BootstrapIngestReport)
    → IsDistinct hints
    → All (Knows (ingest seen_at hints s r).0) hints
unfolding ingest
All-Knows-ingest seen_at [] s r d = tt
All-Knows-ingest seen_at (h ∷ hints) s r d =
    let u = upsert_peer_with_status (hint_snapshot h) (seen_status seen_at) s in
    let k = counted (peer_of s h.peer) (hint_snapshot h) r in
    (
      (ingest_others seen_at hints u k h.peer d.0).0
          ∙ ground (arith, peer_of-upsert seen_at h s h.peer),
      All-Knows-ingest seen_at hints u k d.1,
    )

-- Ingesting hints of different peers a second time, whenever, skips all of them.
pub ingest_bootstrap_again :
    (first_seen seen_at : ℕ) (hints : List DiscoveryHint) (s : PeerStore)
    → IsDistinct hints
    → let r = (ingest_bootstrap hints seen_at (ingest_bootstrap hints first_seen s).0).1 in
      (r.skipped ≡ length hints) × (r.imported ≡ 0) × (r.updated ≡ 0)
unfolding ingest_bootstrap
ingest_bootstrap_again first_seen seen_at hints s d =
    let zero_report : BootstrapIngestReport = record { imported = 0; updated = 0; skipped = 0 } in
    let (x, y, z) =
      ingest_known seen_at hints (ingest first_seen hints s zero_report).0 zero_report
        (All-Knows-ingest first_seen hints s zero_report d) in
    (x ∙ omega arith, y, z)
