-- ===== src/Relay/Paths.antt =====
-- Session ids in paths: `hex_session_id`, `parse_session_id` and `parse_session_path` of
-- crates/relay/src/lib.rs, on the UTF-8 bytes of the path.
use quipnet.Base.{
  ℕ, ◌+◌, ◌-◌, ◌*◌, ◌/◌, ◌%◌, ◌<◌, ◌≤◌, ◌≡◌, refl, ap, Bool, false, ◌&&◌, ◌||◌, Option, none, some,
  [], ◌∷◌, ◌++◌, Bytes, text, leb, ltb, if◌then◌else◌, ◌==◌, nat_eq, option_eq, ◌∙◌, ◌⊎◌, length,
  arith, All,
}
use quipnet.PeerText.{strip_prefix, strip_prefix-append}

hex_digit : ℕ → ℕ
hex_digit n = if ltb n 10 then n + 48 else n + 87

-- `format!("{byte:02x}")` of each byte.
unfoldable pub hex_session_id : Bytes → Bytes
unfolding hex_digit
hex_session_id [] = []
hex_session_id (b ∷ bs) = hex_digit (b / 16) ∷ hex_digit (b % 16) ∷ hex_session_id bs

-- A value that is parsed, refused, or whose parser stops the thread.
pub data Parse (A : Type 0) : Type 0 where
  parsed : A → Parse A
  refused : Parse A
  panics : Parse A

-- `char::to_digit(16)`.
digit : ℕ → Option ℕ
digit c =
    if leb b'0' c && leb c b'9'
    then some (c - 48)
    else if leb b'a' c && leb c b'f'
    then some (c - 87)
    else if leb b'A' c && leb c b'F'
    then some (c - 55)
    else none

two_digits : Option ℕ → Option ℕ → Option ℕ
two_digits (some h) (some l) = some (h * 16 + l)
two_digits _ _ = none

-- `u8::from_str_radix(s, 16)` of a text of two bytes: a leading '+' is a sign.
byte_of : ℕ → ℕ → Option ℕ
unfolding digit two_digits
byte_of a b = if a == b'+' then digit b else two_digits (digit a) (digit b)

-- A byte that continues a character: an index before it is no character boundary.
continues : Bytes → Bool
continues [] = false
continues (c ∷ cs) = leb 0x80 c && ltb c 0xC0

-- The loop of `parse_session_id`, with the bytes from the offset on. A slice whose ends are no
-- character boundaries panics.
parse_bytes : Bytes → Parse Bytes
parse_bytes [] = parsed []
parse_bytes (a ∷ []) = panics
parse_bytes (a ∷ b ∷ rest) =
    let more = parse_bytes rest in
    if continues (a ∷ []) || continues rest then panics else elim (byte_of a b) [
      | none ↦ refused
      | some n ↦ elim more [ parsed ns ↦ parsed (n ∷ ns) | refused ↦ refused | panics ↦ panics ]
    ]

unfoldable pub parse_session_id : Bytes → Parse Bytes
unfolding parse_bytes byte_of continues
parse_session_id value = if length value == 32 then parse_bytes value else refused

unfoldable pub parse_session_path : Bytes → Parse Bytes
unfolding strip_prefix
parse_session_path path = elim (strip_prefix (text "/sessions/") path) [
  | none ↦ refused
  | some s ↦ parse_session_id s
]

-- Every byte value passes through its two hexadecimal digits.
byte_passes :
    (n : ℕ)
    → n < 256
    → (byte_of (hex_digit (n / 16)) (hex_digit (n % 16)) ≡ some n)
      × (hex_digit (n / 16) < 0x80)
      × (hex_digit (n % 16) < 0x80)
unfolding byte_of hex_digit digit two_digits
byte_passes n h = (ground arith, ground arith, ground arith)

abbrev push_byte : ℕ → Parse Bytes → Parse Bytes
push_byte n (parsed ns) = parsed (n ∷ ns)
push_byte n refused = refused
push_byte n panics = panics

parse_bytes_hex :
    (n : ℕ) (rest : Bytes)
    → n < 256
    → continues rest ≡ false
    → parse_bytes (hex_digit (n / 16) ∷ hex_digit (n % 16) ∷ rest) ≡ push_byte n (parse_bytes rest)
unfolding parse_bytes continues
parse_bytes_hex n rest h k = ground (arith, byte_passes n h)

continues-hex : (id : Bytes) → All (λ n. n < 256) id → continues (hex_session_id id) ≡ false
unfolding continues hex_session_id
continues-hex [] h = refl
continues-hex (n ∷ id) h = ground (arith, byte_passes n h.0)

parse_bytes-hex_session_id :
    (id : Bytes) → All (λ n. n < 256) id → parse_bytes (hex_session_id id) ≡ parsed id
unfolding hex_session_id parse_bytes
parse_bytes-hex_session_id [] h = refl
parse_bytes-hex_session_id (n ∷ id) h =
    parse_bytes_hex n (hex_session_id id) h.0 (continues-hex id h.1)
    ∙ ap (push_byte n) (parse_bytes-hex_session_id id h.1)

length-hex_session_id : (id : Bytes) → length (hex_session_id id) ≡ 2 * length id
unfolding hex_session_id
length-hex_session_id [] = refl
length-hex_session_id (n ∷ id) = omega (arith, length-hex_session_id id)

of_length_32 : (value : Bytes) → length value ≡ 32 → parse_session_id value ≡ parse_bytes value
unfolding parse_session_id
of_length_32 value e = ground arith

-- The path that names a session id of 16 bytes by its hexadecimal text parses to that id.
pub parse_session_path-hex_session_id :
    (id : Bytes)
    → All (λ n. n < 256) id
    → length id ≡ 16
    → parse_session_path (text "/sessions/" ++ hex_session_id id) ≡ parsed id
unfolding parse_session_path
parse_session_path-hex_session_id id h e =
    rw (strip_prefix-append (text "/sessions/") (hex_session_id id), parse_session_path)
      (of_length_32 (hex_session_id id) (omega (arith, length-hex_session_id id))
        ∙ parse_bytes-hex_session_id id h)

parse_bytes_split :
    (id rest : Bytes) (a b c : ℕ)
    → All (λ n. n < 256) id
    → a < 0x80 ⊎ (0xC0 ≤ a)
    → 0x80 ≤ c
    → c < 0xC0
    → parse_bytes (hex_session_id id ++ a ∷ b ∷ c ∷ rest) ≡ panics
unfolding hex_session_id parse_bytes continues
parse_bytes_split [] rest a b c h s l u = ground arith
parse_bytes_split (n ∷ id) rest a b c h s l u =
    parse_bytes_hex n (hex_session_id id ++ a ∷ b ∷ c ∷ rest) h.0 (starts id h.1)
    ∙ ap (push_byte n) (parse_bytes_split id rest a b c h.1 s l u)
  where
    starts :
        (id : Bytes)
        → All (λ n. n < 256) id
        → continues (hex_session_id id ++ a ∷ b ∷ c ∷ rest) ≡ false
    starts [] h = ground arith
    starts (m ∷ id) h = ground (arith, byte_passes m h.0)

-- A path of 32 bytes after the prefix panics the relay's thread if, after some pairs of
-- hexadecimal digits, a pair of bytes ends inside a character, that is, before a byte that
-- continues it.
pub parse_session_path_panics :
    (id rest : Bytes) (a b c : ℕ)
    → All (λ n. n < 256) id
    → a < 0x80 ⊎ (0xC0 ≤ a)
    → 0x80 ≤ c
    → c < 0xC0
    → length (hex_session_id id ++ a ∷ b ∷ c ∷ rest) ≡ 32
    → parse_session_path (text "/sessions/" ++ (hex_session_id id ++ a ∷ b ∷ c ∷ rest)) ≡ panics
unfolding parse_session_path
parse_session_path_panics id rest a b c h s l u e =
    rw
      (
        strip_prefix-append (text "/sessions/") (hex_session_id id ++ a ∷ b ∷ c ∷ rest),
        parse_session_path,
      )
      (of_length_32 (hex_session_id id ++ a ∷ b ∷ c ∷ rest) e
        ∙ parse_bytes_split id rest a b c h s l u)
