-- ===== src/Base/Texts.antt =====
-- Texts by their bytes: `str::split` at a character, `join`, and the decimal digits of a number.
use Prim.Native.Nat.{ℕ, zero, suc, ◌+◌, ◌/◌, ◌%◌}
use mathlib.Core.List.{List, [], ◌∷◌, ◌++◌}
use mathlib.Core.Path.{◌≡◌, refl}
use native.Mathlib.Decide.{ℕ_discrete}
use quipnet.Base.Tests.{◌==◌, ltb, if◌then◌else◌}
use quipnet.Base.ByteStrings.{Bytes, nat_eq, text}

-- Put a byte in front of the first piece.
abbrev on_first : ℕ → List Bytes → List Bytes
on_first c [] = (c ∷ []) ∷ []
on_first c (s ∷ pieces) = (c ∷ s) ∷ pieces

unfoldable pub split : ℕ → Bytes → List Bytes
split separator [] = [] ∷ []
split separator (c ∷ s) =
    let rest = split separator s in if c == separator then [] ∷ rest else on_first c rest

unfoldable pub join : Bytes → List Bytes → Bytes
join separator [] = []
join separator (s ∷ []) = s
join separator (s ∷ t ∷ pieces) = s ++ (separator ++ join separator (t ∷ pieces))

-- A `u64` has at most twenty digits.
digits : ℕ → ℕ → Bytes → Bytes
digits zero n acc = acc
digits (suc f) n acc =
    let more = digits f (n / 10) ((b'0' + n % 10) ∷ acc) in
    if ltb n 10 then (b'0' + n) ∷ acc else more

unfoldable pub decimal : ℕ → Bytes
unfolding digits
decimal n = digits 20 n []

split_runs : split b',' (text "a,,b") ≡ text "a" ∷ [] ∷ text "b" ∷ []
unfolding split ℕ_discrete
split_runs = refl

decimal_runs : decimal 1720 ≡ text "1720"
unfolding decimal
decimal_runs = refl
