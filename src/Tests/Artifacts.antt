-- ===== src/Tests/Artifacts.antt =====
-- Artifacts, records and identifiers that are issued and read back.
use quipnet.Base.{arith, bytes_discrete, ◌≡◌, none, [], ◌∷◌, Bytes, text, ok, err}
use quipnet.PeerText.{to_text, from_str, from_str-to_text}
use quipnet.Crypto.{public_key, hash_bytes}
use quipnet.Membership.{default_limits, not_yet_valid, issue_grant, verify_grant}
use quipnet.Membership.Windows.{verify_grant-issue_grant}
use quipnet.Records.{SignedRecord, sign_record, verify_record, payload_hash_mismatch}
use quipnet.Records.Signing.{with_payload, verify_record-sign_record}
use quipnet.Tests.Toy.{toy, toy-IsGenuine, toy-IsBase32, authority_key, client_key, home}

verify_grant-issue_grant_example :
    verify_grant toy
      (λ t. t.subject_peer_id)
      (issue_grant toy
        (λ t. t.subject_peer_id)
        authority_key
        home
        (text "client")
        (text "relay" ∷ [])
        (text "/quip/1" ∷ [])
        default_limits
        []
        10
        20
        3)
      (public_key toy authority_key)
      home
      (text "client")
      9
    ≡ err not_yet_valid
unfolding bytes_discrete
verify_grant-issue_grant_example =
    verify_grant-issue_grant toy (λ t. t.subject_peer_id) authority_key home home (text "client")
      (text "client") (text "relay" ∷ []) (text "/quip/1" ∷ []) default_limits [] 10 20 3 9
      toy-IsGenuine

from_str-to_text_example : from_str toy (to_text toy (0 ∷ 36 ∷ 255 ∷ [])) ≡ ok (0 ∷ 36 ∷ 255 ∷ [])
from_str-to_text_example = from_str-to_text toy (0 ∷ 36 ∷ 255 ∷ []) (ground arith) toy-IsBase32

abbrev signed_note : Bytes → SignedRecord
signed_note payload =
    sign_record toy (λ r. r.payload_hash) home (text "notes") (text "note") 1 client_key 1 10 20
      none payload

verify_record-sign_record_example :
    (verify_record toy
        (λ r. r.payload_hash)
        (signed_note (text "hello"))
        (public_key toy client_key)
      ≡ ok tt)
    × (verify_record toy
          (λ r. r.payload_hash)
          (with_payload (signed_note (text "hello")) (text "bye"))
          (public_key toy client_key)
        ≡ err payload_hash_mismatch)
unfolding hash_bytes
verify_record-sign_record_example =
    verify_record-sign_record toy (λ r. r.payload_hash) home (text "notes") (text "note") 1
      client_key 1 10 20 none (text "hello") (text "bye") toy-IsGenuine (ground arith)
