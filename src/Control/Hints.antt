-- ===== src/Control/Hints.antt =====
-- When two bootstrap hints count as the same.
use quipnet.Base.{◌≡◌, ◌↔◌, ◌⊎◌, true, none, List, map, Bytes, arith}
use quipnet.Base.Sets.{contains, sorted_set_iff}
use quipnet.Base.Trim.{trim}
use quipnet.Membership.{BootstrapHint}
use quipnet.Control.Merge.{normalize_addresses, same_hint}

-- The trimmed addresses of two hints are the same, in whatever order and however often.
abbrev pub SameAddresses : List Bytes → List Bytes → Type 0
SameAddresses xs ys = (a : Bytes) → contains a (map trim xs) ≡ contains a (map trim ys)

by_addresses :
    (xs ys : List Bytes) → ((normalize_addresses xs ≡ normalize_addresses ys) ↔ SameAddresses xs ys)
unfolding normalize_addresses
by_addresses xs ys = sorted_set_iff (map trim xs) (map trim ys)

-- Hints of which one names no peer are the same exactly if they list the same trimmed addresses.
pub same_hint_iff :
    (l r : BootstrapHint)
    → (l.peer_id ≡ none) ⊎ (r.peer_id ≡ none)
    → (same_hint l r ≡ true) ↔ SameAddresses l.addresses r.addresses
unfolding same_hint
same_hint_iff l r h = (
  λ s. (by_addresses l.addresses r.addresses).0 (ground arith),
  λ s. let e = (by_addresses l.addresses r.addresses).1 s in ground arith,
)
