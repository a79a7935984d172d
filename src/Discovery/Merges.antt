-- ===== src/Discovery/Merges.antt =====
-- The merge of a peer's snapshot with the bootstrap hint for it.
use quipnet.Base.{◌≡◌, refl, ◌∙◌, ◌||◌, some, List, [], ◌∷◌, ◌++◌, Bytes, find, arith, bytes_eq}
use quipnet.Base.Sets.{contains, Rises, contains-sorted_set, sorted_set-Rises}
use quipnet.PeerStore.{PeerSnapshot}
use quipnet.Discovery.{DiscoveryHint, merge_peer_snapshot}
use quipnet.Discovery.Ingests.{names}

contains-append :
    (a : Bytes) (xs ys : List Bytes) → contains a (xs ++ ys) ≡ (contains a xs || contains a ys)
contains-append a [] ys = refl
contains-append a (x ∷ xs) ys = ground (arith, contains-append a xs ys)

-- A snapshot whose peer some hint names keeps its peer, and has the protocols and the addresses of
-- both the snapshot and the first such hint, each once and in order.
pub merge_peer_snapshot_lem :
    (hints : List DiscoveryHint) (p : PeerSnapshot) (h : DiscoveryHint)
    → find (names p.peer) hints ≡ some h
    → let m = merge_peer_snapshot hints p in
      (m.peer ≡ p.peer)
      × Rises m.protocols
      × Rises m.addresses
      × ((a : Bytes) → contains a m.protocols ≡ (contains a p.protocols || contains a h.protocols))
      × ((a : Bytes) → contains a m.addresses ≡ (contains a p.addresses || contains a h.addresses))
unfolding merge_peer_snapshot
merge_peer_snapshot_lem hints p h e =
    rw (e, merge_peer_snapshot)
      (
        refl,
        sorted_set-Rises (p.protocols ++ h.protocols),
        sorted_set-Rises (p.addresses ++ h.addresses),
        λ a.
            contains-sorted_set a (p.protocols ++ h.protocols)
            ∙ contains-append a p.protocols h.protocols,
        λ a.
            contains-sorted_set a (p.addresses ++ h.addresses)
            ∙ contains-append a p.addresses h.addresses,
      )
