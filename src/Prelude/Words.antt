-- ===== src/Prelude/Words.antt =====
-- Unsigned 64-bit and 32-bit words as native numbers. Release builds wrap, so `+` and `*` on words are
-- taken modulo the word size where the source writes them plainly.
use Prim.Native.Nat.{ℕ, ◌+◌, ◌*◌, ◌%◌, min}

abbrev pub u64_mod : ℕ
u64_mod = 18446744073709551616

abbrev pub u64_max : ℕ
u64_max = 18446744073709551615

abbrev pub u32_mod : ℕ
u32_mod = 4294967296

-- `a + b` and `a * b` on u64.
abbrev pub add64 : ℕ → ℕ → ℕ
add64 a b = (a + b) % u64_mod

abbrev pub mul64 : ℕ → ℕ → ℕ
mul64 a b = (a * b) % u64_mod

-- `u64::saturating_add` and `u64::saturating_mul`; `saturating_sub` is the truncated `-` of ℕ.
abbrev pub sat_add64 : ℕ → ℕ → ℕ
sat_add64 a b = min (a + b) u64_max

abbrev pub sat_mul64 : ℕ → ℕ → ℕ
sat_mul64 a b = min (a * b) u64_max

-- `a + b` on u32.
abbrev pub add32 : ℕ → ℕ → ℕ
add32 a b = (a + b) % u32_mod
