-- ===== src/Base/Trim.antt =====
-- `str::trim` on UTF-8 bytes: the characters of Unicode's White_Space take one to three bytes.
use Prim.Native.Nat.{ℕ}
use mathlib.Core.Bool.{Bool, ◌&&◌, ◌||◌}
use mathlib.Core.List.{[], ◌∷◌, reverse}
use quipnet.Base.Tests.{leb, ◌==◌, if◌then◌else◌}
use quipnet.Base.ByteStrings.{Bytes, nat_eq}

short_space : ℕ → Bool
short_space a = (leb 9 a && leb a 13) || (a == 32)

-- U+0085 and U+00A0.
pair_space : ℕ → ℕ → Bool
pair_space a b = (a == 0xC2) && ((b == 0x85) || (b == 0xA0))

-- U+1680, U+2000 to U+200A, U+2028, U+2029, U+202F, U+205F and U+3000.
triple_space : ℕ → ℕ → ℕ → Bool
triple_space a b c =
    ((a == 0xE1) && ((b == 0x9A) && (c == 0x80)))
    || (((a == 0xE2)
          && ((b == 0x80)
              && ((leb 0x80 c && leb c 0x8A) || ((c == 0xA8) || ((c == 0xA9) || (c == 0xAF))))))
        || (((a == 0xE2) && ((b == 0x81) && (c == 0x9F)))
            || ((a == 0xE3) && ((b == 0x80) && (c == 0x80)))))

-- Drop leading spaces, whose bytes `two` and `three` recognise in the order of the list.
drop_spaces : (ℕ → ℕ → Bool) → (ℕ → ℕ → ℕ → Bool) → Bytes → Bytes
unfolding short_space
drop_spaces two three [] = []
drop_spaces two three (a ∷ []) = if short_space a then [] else a ∷ []
drop_spaces two three (a ∷ b ∷ []) =
    let next = drop_spaces two three (b ∷ []) in
    if short_space a then next else if two a b then [] else a ∷ b ∷ []
drop_spaces two three (a ∷ b ∷ c ∷ s) =
    let next = drop_spaces two three (b ∷ c ∷ s) in
    let after_two = drop_spaces two three (c ∷ s) in
    let after_three = drop_spaces two three s in
    if short_space a
    then next
    else if two a b
    then after_two
    else if three a b c
    then after_three
    else a ∷ b ∷ c ∷ s

unfoldable pub trim : Bytes → Bytes
unfolding drop_spaces pair_space triple_space
trim s = reverse (
    drop_spaces (λ a b. pair_space b a) (λ a b c. triple_space c b a)
      (reverse (drop_spaces pair_space triple_space s)))
