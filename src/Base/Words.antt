-- ===== src/Base/Words.antt =====
-- Machine words: the moduli, the wrap-around of release builds, and the saturating operations.
use Prim.Native.Nat.{ℕ, ◌+◌, ◌-◌, ◌*◌, ◌%◌, ◌^◌, min}

abbrev pub u32_mod : ℕ
u32_mod = 2 ^ 32

abbrev pub u64_mod : ℕ
u64_mod = 2 ^ 64

abbrev pub u32 : ℕ → ℕ
u32 n = n % u32_mod

abbrev pub u64 : ℕ → ℕ
u64 n = n % u64_mod

abbrev pub sat_add_u64 : ℕ → ℕ → ℕ
sat_add_u64 a b = min (a + b) (u64_mod - 1)

abbrev pub sat_mul_u64 : ℕ → ℕ → ℕ
sat_mul_u64 a b = min (a * b) (u64_mod - 1)

abbrev pub sat_add_u32 : ℕ → ℕ → ℕ
sat_add_u32 a b = min (a + b) (u32_mod - 1)

abbrev pub sat_mul_u32 : ℕ → ℕ → ℕ
sat_mul_u32 a b = min (a * b) (u32_mod - 1)
