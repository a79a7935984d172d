-- ===== src/Base/ByteStrings.antt =====
-- Byte strings: identifiers (`PeerId`, `NetworkId`, `[u8; 16]`) and texts by their UTF-8 bytes.
use Prim.Native.Char.{code}
use Prim.Native.Nat.{ℕ}
use Prim.Native.String.{String}
use mathlib.Core.Path.{◌≡◌, refl}
use mathlib.Core.Bool.{Bool, true, false}
use mathlib.Core.List.{List, [], ◌∷◌}
use mathlib.Core.Option.{Option, none, some}
use native.Mathlib.Decide.{ℕ_discrete}
use native.Mathlib.Omega.{arith}
use quipnet.Base.Tests.{ltb, Eq, if◌then◌else◌}

abbrev pub Bytes : Type 0
Bytes = List ℕ

-- The bytes of an ASCII literal.
abbrev pub text : String → Bytes
text String.[] = []
text (String.◌∷◌ c s) = code c ∷ text s

cons_dec : {x y : ℕ} {xs ys : Bytes} → Dec (x ≡ y) → Dec (xs ≡ ys) → Dec (x ∷ xs ≡ y ∷ ys)
cons_dec (yes p) (yes q) = yes (cc)
cons_dec (yes p) (no n) = no (λ e. n (cc))
cons_dec (no n) q = no (λ e. n (cc))

unfoldable pub bytes_discrete : Discrete Bytes
unfolding cons_dec ℕ_discrete
bytes_discrete [] [] = yes refl
bytes_discrete [] (y ∷ ys) = no (λ e. cc)
bytes_discrete (x ∷ xs) [] = no (λ e. cc)
bytes_discrete (x ∷ xs) (y ∷ ys) = cons_dec (ℕ_discrete x y) (bytes_discrete xs ys)

some_dec {ℓ} : {A : Type ℓ} {a b : A} → Dec (a ≡ b) → Dec (some a ≡ some b)
some_dec (yes p) = yes (cc)
some_dec (no n) = no (λ e. n (cc))

unfoldable pub option_discrete {ℓ} : {A : Type ℓ} → Discrete A → Discrete (Option A)
unfolding some_dec
option_discrete d none none = yes refl
option_discrete d none (some b) = no (λ e. cc)
option_discrete d (some a) none = no (λ e. cc)
option_discrete d (some a) (some b) = some_dec (d a b)

instance abbrev pub nat_eq : Eq ℕ
nat_eq = record { dec = ℕ_discrete }

instance abbrev pub bytes_eq : Eq Bytes
bytes_eq = record { dec = bytes_discrete }

instance abbrev pub option_eq {ℓ} : {A : Type ℓ} ⦃e : Eq A⦄ → Eq (Option A)
option_eq ⦃e⦄ = record { dec = option_discrete e.dec }

-- The order of `Vec<u8>`, `[u8; n]` and `String`: lexicographic on bytes.
unfoldable pub bytes_lt : Bytes → Bytes → Bool
bytes_lt [] [] = false
bytes_lt [] (y ∷ ys) = true
bytes_lt (x ∷ xs) [] = false
bytes_lt (x ∷ xs) (y ∷ ys) = if ltb x y then true else if ltb y x then false else bytes_lt xs ys

pub bytes_lt_irrefl : (xs : Bytes) → bytes_lt xs xs ≡ false
unfolding bytes_lt
bytes_lt_irrefl [] = refl
bytes_lt_irrefl (x ∷ xs) = ground (arith, bytes_lt_irrefl xs)

pub bytes_lt_trans :
    (xs ys zs : Bytes) → bytes_lt xs ys ≡ true → bytes_lt ys zs ≡ true → bytes_lt xs zs ≡ true
unfolding bytes_lt
bytes_lt_trans [] [] zs h k = cc
bytes_lt_trans [] (y ∷ ys) [] h k = cc
bytes_lt_trans [] (y ∷ ys) (z ∷ zs) h k = refl
bytes_lt_trans (x ∷ xs) [] zs h k = cc
bytes_lt_trans (x ∷ xs) (y ∷ ys) [] h k = cc
bytes_lt_trans (x ∷ xs) (y ∷ ys) (z ∷ zs) h k = ground (arith, bytes_lt_trans xs ys zs)

-- Two byte strings neither of which is below the other are equal.
pub eq_of_not_bytes_lt : (xs ys : Bytes) → bytes_lt xs ys ≡ false → bytes_lt ys xs ≡ false → xs ≡ ys
unfolding bytes_lt
eq_of_not_bytes_lt [] [] h k = refl
eq_of_not_bytes_lt [] (y ∷ ys) h k = cc
eq_of_not_bytes_lt (x ∷ xs) [] h k = cc
eq_of_not_bytes_lt (x ∷ xs) (y ∷ ys) h k = ground (arith, eq_of_not_bytes_lt xs ys)
