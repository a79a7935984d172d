-- ===== src/PeerText.antt =====
-- The text of identifiers in crates/model/src/lib.rs: `PeerId::to_text`, its `FromStr`, and
-- `NetworkId::to_text`.
use quipnet.Base.{
  false, ◌||◌, Bool, ℕ, ◌+◌, ◌-◌, ◌≡◌, refl, true, ◌&&◌, Option, none, some, [], ◌∷◌, ◌++◌, map,
  Bytes, text, leb, if◌then◌else◌, ◌==◌, nat_eq, Result, ok, err, All, arith, ◌<◌,
}
use quipnet.Model.{PeerId, NetworkId, TypeError, invalid_peer_id_prefix, invalid_peer_id_encoding}
use quipnet.Crypto.{Primitives, IsBase32, is_base32}

abbrev to_lower : ℕ → ℕ
to_lower n = if leb b'A' n && leb n b'Z' then n + 32 else n

abbrev to_upper : ℕ → ℕ
to_upper n = if leb b'a' n && leb n b'z' then n - 32 else n

-- `str::strip_prefix`.
unfoldable pub strip_prefix : Bytes → Bytes → Option Bytes
strip_prefix [] s = some s
strip_prefix (p ∷ ps) [] = none
strip_prefix (p ∷ ps) (c ∷ s) = if p == c then strip_prefix ps s else none

abbrev pub starts_with : Bytes → Bytes → Bool
starts_with p s = elim (strip_prefix p s) [ none ↦ false | some _ ↦ true ]

-- `str::contains`.
unfoldable pub str_contains : Bytes → Bytes → Bool
str_contains needle [] = starts_with needle []
str_contains needle (c ∷ s) = starts_with needle (c ∷ s) || str_contains needle s

pub strip_prefix-append : (p s : Bytes) → strip_prefix p (p ++ s) ≡ some s
unfolding strip_prefix
strip_prefix-append [] s = refl
strip_prefix-append (c ∷ p) s = ground (arith, strip_prefix-append p s)

module _ (c : Primitives) where
  unfoldable pub to_text : PeerId → Bytes
  to_text p = text "peer1" ++ map to_lower (c.base32 p)

  unfoldable pub network_text : NetworkId → Bytes
  network_text n = text "net1" ++ map to_lower (c.base32 n)

  -- `PeerId::from_str`; the message of a decoding error is left out.
  unfoldable pub from_str : Bytes → Result TypeError PeerId
  from_str value = elim (strip_prefix (text "peer1") value) [
    | none ↦ err invalid_peer_id_prefix
    | some encoded ↦ elim (c.base32_decode (map to_upper encoded)) [
      | none ↦ err (invalid_peer_id_encoding [])
      | some bytes ↦ ok bytes
    ]
  ]

  upper_lower : (s : Bytes) → All (λ n. is_base32 n ≡ true) s → map to_upper (map to_lower s) ≡ s
  upper_lower [] h = refl
  upper_lower (n ∷ s) h = ground (arith, upper_lower s h.1)

  -- The text of a peer id parses to that id.
  pub from_str-to_text :
      (p : PeerId) → All (λ n. n < 256) p → IsBase32 c → from_str (to_text p) ≡ ok p
  unfolding from_str to_text
  from_str-to_text p b h =
      rw (strip_prefix-append (text "peer1") (map to_lower (c.base32 p)), from_str)
        (rw (upper_lower (c.base32 p) (h.alphabet p), from_str)
          (rw (h.decode_encode p b, from_str)))
