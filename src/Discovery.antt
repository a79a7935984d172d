-- ===== src/Discovery.antt =====
-- crates/discovery/src/lib.rs: bootstrap hints that enter the peer store.
pub mod Ingests
pub mod Merges
use quipnet.Base.{
  ℕ, suc, Bool, Option, none, some, List, [], ◌∷◌, ◌++◌, Bytes, ◌==◌, if◌then◌else◌, find, Eq,
  bytes_eq, bytes_discrete,
}
use quipnet.Base.Sets.{sorted_set}
use quipnet.Model.{PeerId}
use quipnet.PeerStore.{
  PeerSnapshot, PeerStatus, bootstrap, unknown, PeerStore, peer_of, upsert_peer_with_status,
}

pub record DiscoveryHint : Type 0 where
  pub peer : PeerId
  pub addresses : List Bytes
  pub protocols : List Bytes

pub record BootstrapIngestReport : Type 0 where
  pub imported : ℕ
  pub updated : ℕ
  pub skipped : ℕ

pub PeerSnapshot-discrete : Discrete PeerSnapshot
PeerSnapshot-discrete = hlevel (bytes_discrete)

instance abbrev pub peer_snapshot_eq : Eq PeerSnapshot
peer_snapshot_eq = record { dec = PeerSnapshot-discrete }

abbrev pub hint_snapshot : DiscoveryHint → PeerSnapshot
hint_snapshot h = record { peer = h.peer; protocols = h.protocols; addresses = h.addresses }

abbrev pub seen_status : ℕ → PeerStatus
seen_status seen_at = record {
  source = bootstrap;
  reachability = unknown;
  last_seen_unix_secs = some seen_at;
}

-- The counter that one hint raises.
unfoldable pub counted :
    Option PeerSnapshot → PeerSnapshot → BootstrapIngestReport → BootstrapIngestReport
counted none snapshot r = record r { imported = suc r.imported }
counted (some existing) snapshot r =
    if existing == snapshot
    then record r { skipped = suc r.skipped }
    else record r { updated = suc r.updated }

-- The loop of `ingest_bootstrap`, with the report so far.
unfoldable pub ingest :
    ℕ → List DiscoveryHint → PeerStore → BootstrapIngestReport → PeerStore × BootstrapIngestReport
ingest seen_at [] s r = (s, r)
ingest seen_at (h ∷ hints) s r =
    ingest seen_at hints (upsert_peer_with_status (hint_snapshot h) (seen_status seen_at) s)
      (counted (peer_of s h.peer) (hint_snapshot h) r)

unfoldable pub ingest_bootstrap :
    List DiscoveryHint → ℕ → PeerStore → PeerStore × BootstrapIngestReport
ingest_bootstrap hints seen_at s =
    ingest seen_at hints s (record { imported = 0; updated = 0; skipped = 0 })

-- A `BTreeSet` of the texts of both lists, in order.
unfoldable pub merge_peer_snapshot : List DiscoveryHint → PeerSnapshot → PeerSnapshot
merge_peer_snapshot hints snapshot =
    elim (find (λ (h : DiscoveryHint). h.peer == snapshot.peer) hints) [
      | none ↦ snapshot
      | some existing ↦ record {
        peer = snapshot.peer;
        protocols = sorted_set (snapshot.protocols ++ existing.protocols);
        addresses = sorted_set (snapshot.addresses ++ existing.addresses);
      }
    ]
