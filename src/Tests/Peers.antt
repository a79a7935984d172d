-- ===== src/Tests/Peers.antt =====
-- Bootstrap hints that enter an empty store.
use quipnet.Base.{◌≡◌, ◌||◌, refl, some, [], ◌∷◌, ◌++◌, List, Bytes, text, length, bytes_discrete}
use quipnet.Base.Sets.{contains, Rises}
use quipnet.PeerStore.{PeerStore, PeerSnapshot, peer_of, peer_status}
use quipnet.Discovery.{
  DiscoveryHint, hint_snapshot, seen_status, ingest_bootstrap, merge_peer_snapshot,
}
use quipnet.Discovery.Ingests.{total, ingest_bootstrap_lem}
use quipnet.Discovery.Merges.{merge_peer_snapshot_lem}

abbrev hint : Bytes → Bytes → DiscoveryHint
hint peer address = record {
  peer = peer;
  addresses = address ∷ [];
  protocols = text "/quip/control/1" ∷ [];
}

abbrev empty_store : PeerStore
empty_store = record { peers = []; statuses = []; records = [] }

abbrev seeds : List DiscoveryHint
seeds = hint (text "a") (text "udp://a") ∷ hint (text "b") (text "udp://b") ∷ []

ingest_bootstrap_lem_example :
    (total (ingest_bootstrap (seeds ++ hint (text "a") (text "udp://c") ∷ []) 7 empty_store).1
      ≡ length (seeds ++ hint (text "a") (text "udp://c") ∷ []))
    × (peer_of
          (ingest_bootstrap (seeds ++ hint (text "a") (text "udp://c") ∷ []) 7 empty_store).0
          (text "a")
        ≡ some (hint_snapshot (hint (text "a") (text "udp://c"))))
    × (peer_status
          (ingest_bootstrap (seeds ++ hint (text "a") (text "udp://c") ∷ []) 7 empty_store).0
          (text "a")
        ≡ some (seen_status 7))
ingest_bootstrap_lem_example =
    ingest_bootstrap_lem 7 seeds [] (hint (text "a") (text "udp://c")) empty_store refl

abbrev observed_peer : PeerSnapshot
observed_peer = record {
  peer = text "b";
  protocols = text "/quip/x/1" ∷ [];
  addresses = text "udp://b" ∷ [];
}

merge_peer_snapshot_lem_example :
    ((merge_peer_snapshot seeds observed_peer).peer ≡ text "b")
    × Rises (merge_peer_snapshot seeds observed_peer).protocols
    × Rises (merge_peer_snapshot seeds observed_peer).addresses
    × ((a : Bytes)
        → contains a (merge_peer_snapshot seeds observed_peer).protocols
          ≡ (contains a (text "/quip/x/1" ∷ []) || contains a (text "/quip/control/1" ∷ [])))
    × ((a : Bytes)
        → contains a (merge_peer_snapshot seeds observed_peer).addresses
          ≡ (contains a (text "udp://b" ∷ []) || contains a (text "udp://b" ∷ [])))
unfolding bytes_discrete
merge_peer_snapshot_lem_example =
    merge_peer_snapshot_lem seeds observed_peer (hint (text "b") (text "udp://b")) refl
