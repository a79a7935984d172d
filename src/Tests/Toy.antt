-- ===== src/Tests/Toy.antt =====
-- Concrete cryptography for the tests: keys and signatures that repeat the first secret byte, a
-- hash that is the payload, and a base32 text of two letters for each byte.
use quipnet.Base.{
  ℕ, ◌+◌, ◌-◌, ◌*◌, ◌/◌, ◌%◌, ◌<◌, ◌≡◌, refl, true, Option, none, some, [], ◌∷◌, Bytes, text, All,
  ◌==◌, ==_refl, nat_eq, arith,
}
use quipnet.Crypto.{Primitives, IsGenuine, IsBase32, is_base32, IdentityKeypair}

abbrev first_byte : Bytes → ℕ
first_byte [] = 0
first_byte (n ∷ _) = n

abbrev eight : Bytes → Bytes
eight s = 0 ∷ 0 ∷ 0 ∷ 0 ∷ 0 ∷ 0 ∷ 0 ∷ 0 ∷ s

-- A key of 32 bytes and a signature of 64.
abbrev toy_key : Bytes → Bytes
toy_key s = first_byte s ∷ eight (eight (eight (0 ∷ 0 ∷ 0 ∷ 0 ∷ 0 ∷ 0 ∷ 0 ∷ [])))

abbrev toy_signature : Bytes → Bytes
toy_signature s =
    first_byte s
    ∷ eight (eight (eight (eight (eight (eight (eight (0 ∷ 0 ∷ 0 ∷ 0 ∷ 0 ∷ 0 ∷ 0 ∷ [])))))))

abbrev toy_base32 : Bytes → Bytes
toy_base32 [] = []
toy_base32 (n ∷ s) = (b'A' + n / 16 % 16) ∷ (b'A' + n % 16) ∷ toy_base32 s

abbrev with_byte : ℕ → Option Bytes → Option Bytes
with_byte n none = none
with_byte n (some s) = some (n ∷ s)

abbrev toy_base32_decode : Bytes → Option Bytes
toy_base32_decode [] = some []
toy_base32_decode (a ∷ []) = none
toy_base32_decode (a ∷ b ∷ s) = with_byte ((a - b'A') * 16 + (b - b'A')) (toy_base32_decode s)

abbrev pub toy : Primitives
toy = record {
  verifying_key = toy_key;
  sign_bytes = λ s m. toy_signature s;
  is_key = λ k. true;
  verifies = λ k m s. first_byte k == first_byte s;
  blake3 = λ m. m;
  varint_u64 = λ n. n ∷ [];
  base32 = toy_base32;
  base32_decode = toy_base32_decode;
}

pub toy-IsGenuine : IsGenuine toy
toy-IsGenuine = record {
  key_size = λ s. refl;
  key_valid = λ s. refl;
  signature_size = λ s m. refl;
  verify_sign = λ s m. ==_refl (first_byte s);
}

toy_alphabet : (b : Bytes) → All (λ n. is_base32 n ≡ true) (toy_base32 b)
toy_alphabet [] = tt
toy_alphabet (n ∷ s) = (ground arith, (ground arith, toy_alphabet s))

toy_decode_encode : (b : Bytes) → All (λ n. n < 256) b → toy_base32_decode (toy_base32 b) ≡ some b
toy_decode_encode [] h = refl
toy_decode_encode (n ∷ s) h = rw (toy_decode_encode s h.1) (ground arith)

pub toy-IsBase32 : IsBase32 toy
toy-IsBase32 = record { alphabet = toy_alphabet; decode_encode = toy_decode_encode }

-- Two key pairs, and two networks.
abbrev pub authority_key : IdentityKeypair
authority_key = record { signing_key = 7 ∷ [] }

abbrev pub client_key : IdentityKeypair
client_key = record { signing_key = 9 ∷ [] }

abbrev pub home : Bytes
home = text "home"

abbrev pub away : Bytes
away = text "away"
