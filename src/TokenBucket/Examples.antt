-- ===== src/TokenBucket/Examples.antt =====
-- Runs of the bucket that the tests of crates/router-core/src/token_bucket.rs also make, and the
-- theorems at concrete buckets.
use rapidrouter.Prelude.{ℕ, ◌+◌, ◌*◌, ◌≤◌, ◌≡◌, refl, Bool, true, false, List, [], ◌∷◌, arith}
use rapidrouter.TokenBucket.{
  TokenBucket, new_bucket, refill, try_consume, debit_saturating, available_tokens,
}
use rapidrouter.TokenBucket.Laws.{refill_overflow}
use rapidrouter.TokenBucket.Threads.{Thread, consuming, debiting, settled, run, step, advance}
use rapidrouter.TokenBucket.Conservation.{taken, all_pending, run-conserves}

abbrev bucket : TokenBucket
bucket = record {
  available = 0;
  last_refill_ms = 0;
  capacity_milli = 10000;
  refill_milli_per_ms = 2;
}

-- Two tokens a second, up to ten.
refills_at_rate :
    ((try_consume (new_bucket 10 2) 10 0).0 ≡ bucket)
    × ((try_consume bucket 1 400).1 ≡ false)
    × ((try_consume bucket 1 600).1 ≡ true)
    × (available_tokens (try_consume bucket 5 10000).0 ≡ 5)
    × (available_tokens (debit_saturating bucket 50 10000) ≡ 0)
unfolding try_consume new_bucket available_tokens debit_saturating refill
refills_at_rate = (refl, refl, refl, refl, refl)

abbrev calls : List (ℕ × ℕ)
calls = (1, 600) ∷ (3, 1000) ∷ (1, 900) ∷ []

-- A limit of 2^64 - 1 a minute, as `new` would size it, after a minute.
abbrev huge : TokenBucket
huge = record {
  available = 5000;
  last_refill_ms = 0;
  capacity_milli = 18446744073709550616;
  refill_milli_per_ms = 307445734561825861;
}

refill_overflow_example : (refill huge 60000).available + 1 ≡ 5000
refill_overflow_example =
    refill_overflow huge 60000 (omega arith) (omega arith) (omega arith) (omega arith) (omega arith)

-- Two callers race for the last token, and a third settles what it used.
abbrev racers : List Thread
racers = consuming 1 600 ∷ consuming 1 600 ∷ debiting 3 600 ∷ []

abbrev race : List (Bool × ℕ)
race =
    (false, 0)
    ∷ (false, 1)
    ∷ (false, 0)
    ∷ (false, 1)
    ∷ (false, 0)
    ∷ (false, 0)
    ∷ (false, 1)
    ∷ (false, 0)
    ∷ (false, 0)
    ∷ (true, 1)
    ∷ (false, 1)
    ∷ []

race_winner : (run race bucket racers).1 ≡ settled 1000 true ∷ settled 0 false ∷ debiting 3 600 ∷ []
unfolding run step advance
race_winner = refl

run-conserves_example :
    taken (run race bucket racers).1 + (run race bucket racers).0.available + 2 * 0
    ≤ taken racers + all_pending racers + 0 + 2 * (run race bucket racers).0.last_refill_ms
run-conserves_example = (run-conserves race bucket racers (tt, (tt, (tt, tt)))).0
