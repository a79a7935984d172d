-- ===== src/PeerStore.antt =====
-- crates/peerstore/src/lib.rs: what a node knows of its peers.
use quipnet.Base.{ℕ, Option, none, some, List, [], ◌∷◌, ◌++◌, Bytes, length}
use quipnet.Base.Maps.{Map, get, insert, keys}
use quipnet.Model.{PeerId}
use quipnet.Records.{SignedRecord}

pub record PeerSnapshot : Type 0 where
  pub peer : PeerId
  pub protocols : List Bytes
  pub addresses : List Bytes

pub data PeerSource : Type 0 where
  bootstrap relay_map discovery manual observed : PeerSource

pub data PeerReachability : Type 0 where
  unknown direct relayed unreachable : PeerReachability

pub record PeerStatus : Type 0 where
  pub source : PeerSource
  pub reachability : PeerReachability
  pub last_seen_unix_secs : Option ℕ

unfoldable pub default_status : PeerStatus
default_status = record { source = observed; reachability = unknown; last_seen_unix_secs = none }

pub record PeerInspection : Type 0 where
  pub snapshot : PeerSnapshot
  pub status : PeerStatus
  pub record_count : ℕ

pub record PeerStore : Type 0 where
  pub peers : Map PeerSnapshot
  pub statuses : Map PeerStatus
  pub records : Map (List SignedRecord)

abbrev pub or_status : Option PeerStatus → PeerStatus → PeerStatus
or_status none d = d
or_status (some s) d = s

abbrev pub records_of : Option (List SignedRecord) → List SignedRecord
records_of none = []
records_of (some rs) = rs

-- `entry(peer).or_default()` keeps a status that is there.
unfoldable pub upsert_peer : PeerSnapshot → PeerStore → PeerStore
upsert_peer snapshot s = record s {
  peers = insert snapshot.peer snapshot s.peers;
  statuses = elim (get snapshot.peer s.statuses) [
    | some _ ↦ s.statuses
    | none ↦ insert snapshot.peer default_status s.statuses
  ];
}

unfoldable pub upsert_peer_with_status : PeerSnapshot → PeerStatus → PeerStore → PeerStore
upsert_peer_with_status snapshot status s = record s {
  peers = insert snapshot.peer snapshot s.peers;
  statuses = insert snapshot.peer status s.statuses;
}

unfoldable pub append_record : PeerId → SignedRecord → PeerStore → PeerStore
append_record peer r s = record s {
  records = insert peer (records_of (get peer s.records) ++ r ∷ []) s.records;
}

unfoldable pub peer_of : PeerStore → PeerId → Option PeerSnapshot
peer_of s p = get p s.peers

unfoldable pub peer_status : PeerStore → PeerId → Option PeerStatus
peer_status s p = get p s.statuses

unfoldable pub record_count : PeerStore → PeerId → ℕ
record_count s p = length (records_of (get p s.records))

unfoldable pub inspection : PeerStore → PeerId → Option PeerInspection
unfolding default_status
inspection s p = elim (get p s.peers) [
  | none ↦ none
  | some snapshot ↦ some (record {
    snapshot = snapshot;
    status = or_status (get p s.statuses) default_status;
    record_count = record_count s p;
  })
]

-- `filter_map` of the inspections of the given peers.
inspections : PeerStore → List PeerId → List PeerInspection
inspections s [] = []
inspections s (p ∷ ps) = elim (inspection s p) [
  | none ↦ inspections s ps
  | some i ↦ i ∷ inspections s ps
]

unfoldable pub all_peers : PeerStore → List PeerInspection
unfolding inspections
all_peers s = inspections s (keys s.peers)
