-- ===== src/Config/Numbers.antt =====
-- The tests of crates/router-core/src/config/validate.rs on an f64, read from its bit pattern: eleven
-- bits of exponent above fifty-two of fraction, below the sign.
use rapidrouter.Prelude.{ℕ, Bool, ◌&&◌, ◌||◌, ltb, leb, ◌==◌}

-- The pattern of infinity; above it are the NaNs, and the negative values from `minus_zero`.
abbrev infinity : ℕ
infinity = 9218868437227405312

abbrev minus_zero : ℕ
minus_zero = 9223372036854775808

-- `w.is_finite() && w > 0.0`.
unfoldable pub is_positive : ℕ → Bool
is_positive bits = ltb 0 bits && ltb bits infinity

-- `p.is_finite() && p >= 0.0`.
unfoldable pub is_price : ℕ → Bool
is_price bits = ltb bits infinity || bits == minus_zero

-- `(lo..=hi).has_name(&n)`.
unfoldable pub is_within : ℕ → ℕ → ℕ → Bool
is_within lo hi n = leb lo n && leb n hi
