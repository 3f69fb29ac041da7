-- ===== src/Router/Floats.antt =====
-- The f64 operations that crates/router-core/src/router.rs uses on weights and shares. A float is its
-- bit pattern, a number; the operations belong to the hardware and are a parameter.
use rapidrouter.Prelude.{ℕ, Bool, true, false, ◌≡◌}

pub record FloatOps : Type 0 where
  -- `leases as f64 / weight`, `a < b`, `a == b`, and `a.total_cmp(&b)` answering less or equal.
  pub ratio : ℕ → ℕ → ℕ
  pub lt : ℕ → ℕ → Bool
  pub eq : ℕ → ℕ → Bool
  pub total_le : ℕ → ℕ → Bool
  -- `a + b`, `a - b`, `a * b`, `a <= 0.0`, and the key `u.powf(1.0 / w)` of a weighted draw.
  pub add : ℕ → ℕ → ℕ
  pub sub : ℕ → ℕ → ℕ
  pub mul : ℕ → ℕ → ℕ
  pub le_zero : ℕ → Bool
  pub draw_key : ℕ → ℕ → ℕ

-- What IEEE 754 says of `<` and `==` on the values in a range without NaN and without a negative zero,
-- as shares are when the weights are positive and finite.
pub record IsOrdered (f : FloatOps) (InRange : ℕ → Type 0) : Type 0 where
  pub lt_asymmetric : (a b : ℕ) → InRange a → InRange b → f.lt a b ≡ true → f.lt b a ≡ false
  pub lt_transitive :
      (a b c : ℕ)
      → InRange a
      → InRange b
      → InRange c
      → f.lt b a ≡ false
      → f.lt c b ≡ false
      → f.lt c a ≡ false
  pub eq_same : (a b : ℕ) → InRange a → InRange b → f.eq a b ≡ true → a ≡ b
