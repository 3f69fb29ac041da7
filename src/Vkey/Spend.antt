-- ===== src/Vkey/Spend.antt =====
-- crates/router-core/src/vkey.rs, `SpendState`: period and spend in one u64, `(period << 40) | spend`. A
-- spend is below 2^40 and a period below 2^24, so that the `|` is a sum, and the word does not overflow.
-- One call of `add` runs with no other thread between its load and its exchange.
use rapidrouter.Prelude.{
  ℕ, ◌+◌, ◌*◌, ◌/◌, ◌%◌, ◌≤◌, ◌<◌, ◌≡◌, List, [], ◌∷◌, All, min, sat_add64, u64_mod, ◌==◌,
  if◌then◌else◌, arith, ◌∙◌, ◌≢◌,
}

abbrev spend_unit : ℕ
spend_unit = 1099511627776

abbrev pub spend_mask : ℕ
spend_mask = 1099511627775

abbrev period_count : ℕ
period_count = 16777216

-- `p & PERIOD_MASK`, `word >> SPEND_BITS` and `word & SPEND_MASK`.
abbrev pub period_of : ℕ → ℕ
period_of ordinal = ordinal % period_count

abbrev word_period : ℕ → ℕ
word_period word = word / spend_unit

abbrev word_spent : ℕ → ℕ
word_spent word = word % spend_unit

-- The word after a debit. A new period begins with the debit itself.
unfoldable pub spend_add : ℕ → ℕ → ℕ → ℕ
spend_add word micro_usd ordinal =
    period_of ordinal * spend_unit
    + (if word_period word == period_of ordinal
        then min (sat_add64 (word_spent word) micro_usd) spend_mask
        else min micro_usd spend_mask)

-- A stale period reads as zero.
unfoldable pub spend_current : ℕ → ℕ → ℕ
spend_current word ordinal = if word_period word == period_of ordinal then word_spent word else 0

-- Debits within one period.
unfoldable pub spend_all : ℕ → List ℕ → ℕ → ℕ
spend_all word [] ordinal = word
spend_all word (d ∷ ds) ordinal = spend_all (spend_add word d ordinal) ds ordinal

abbrev pub total : List ℕ → ℕ
total [] = 0
total (d ∷ ds) = d + total ds

-- One debit: the word stays in 64 bits; the period read is the one debited, and its spend has grown by
-- the debit up to the mask; any other period reads as zero.
pub spend_add-current :
    (word micro_usd ordinal other : ℕ)
    → micro_usd < u64_mod
    → (spend_add word micro_usd ordinal < u64_mod)
      × (spend_current (spend_add word micro_usd ordinal) ordinal
          ≡ min (spend_current word ordinal + micro_usd) spend_mask)
      × (period_of other ≢ period_of ordinal
          → spend_current (spend_add word micro_usd ordinal) other ≡ 0)
unfolding spend_add spend_current
spend_add-current word micro_usd ordinal other fits = (ground arith, ground arith, ground arith)

-- No debit of a period is lost: after any debits, however many, its spend is the opening spend and
-- their sum, up to the mask.
pub spend_all-total :
    (word : ℕ) (ds : List ℕ) (ordinal : ℕ)
    → All (λ d. d < u64_mod) ds
    → spend_current word ordinal ≤ spend_mask
    → spend_current (spend_all word ds ordinal) ordinal
      ≡ min (spend_current word ordinal + total ds) spend_mask
unfolding spend_all
spend_all-total word [] ordinal fits small = omega arith
spend_all-total word (d ∷ ds) ordinal fits small =
    let (_, grown, _) = spend_add-current word d ordinal ordinal fits.0 in
    spend_all-total (spend_add word d ordinal) ds ordinal fits.1 (omega arith) ∙ omega arith
