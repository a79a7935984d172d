-- ===== src/Control/Certificates.antt =====
-- `merge_membership`: when a certificate replaces the one that is held.
use quipnet.Base.{◌≡◌, ◌<◌, ◌↔◌, ◌⊎◌, Option, some, ok, arith, bytes_eq, nat_eq}
use quipnet.Membership.{MembershipCertificate}
use quipnet.Control.Merge.{merge_membership, certificate_eq}

-- A certificate is merged into a held one exactly if it has the same subject and is issued later,
-- or is the very same certificate; and then the incoming one is the result.
pub merge_membership_iff :
    (current incoming : MembershipCertificate) (r : Option MembershipCertificate)
    → (merge_membership (some current) (some incoming) ≡ ok r) ↔ (
        (r ≡ some incoming)
        × (current.subject_peer_id ≡ incoming.subject_peer_id)
        × ((current.issued_at < incoming.issued_at) ⊎ (incoming ≡ current)))
unfolding merge_membership
merge_membership_iff current incoming r = (accepted, merged)
  where
    accepted :
        merge_membership (some current) (some incoming) ≡ ok r
        → (r ≡ some incoming)
          × (current.subject_peer_id ≡ incoming.subject_peer_id)
          × ((current.issued_at < incoming.issued_at) ⊎ (incoming ≡ current))
    accepted h = ground arith

    merged :
        (r ≡ some incoming)
          × (current.subject_peer_id ≡ incoming.subject_peer_id)
          × ((current.issued_at < incoming.issued_at) ⊎ (incoming ≡ current))
        → merge_membership (some current) (some incoming) ≡ ok r
    merged h = ground arith
