-- ===== src/TokenBucket.antt =====
-- crates/router-core/src/token_bucket.rs: the token bucket, in millitokens. Each operation here runs
-- with no other thread between its atomic accesses; TokenBucket/Threads has the interleavings.
pub mod Laws
pub mod Threads
pub mod Conservation
mod Examples
use rapidrouter.Prelude.{
  ℕ, ◌-◌, ◌/◌, Bool, true, false, ltb, leb, if◌then◌else◌, min, add64, mul64, sat_mul64,
}

pub record TokenBucket : Type 0 where
  pub available : ℕ
  pub last_refill_ms : ℕ
  pub capacity_milli : ℕ
  pub refill_milli_per_ms : ℕ

-- `new` shares its name with other parts' constructors; a bucket starts full.
unfoldable pub new_bucket : ℕ → ℕ → TokenBucket
new_bucket capacity per_second = record {
  available = mul64 capacity 1000;
  last_refill_ms = 0;
  capacity_milli = mul64 capacity 1000;
  refill_milli_per_ms = per_second;
}

-- The balance after a credit. The sum is a plain `+` on u64, taken before the minimum.
unfoldable pub topped_up : TokenBucket → ℕ → ℕ → ℕ
topped_up b current credit = min (add64 current credit) b.capacity_milli

unfoldable pub refill : TokenBucket → ℕ → TokenBucket
unfolding topped_up
refill b now_ms = if leb now_ms b.last_refill_ms then b else record b {
  last_refill_ms = now_ms;
  available = topped_up b b.available (sat_mul64 (now_ms - b.last_refill_ms) b.refill_milli_per_ms);
}

-- The balance is taken from the refilled bucket.
take_milli : TokenBucket → ℕ → TokenBucket × Bool
take_milli b need =
    if ltb b.available need then (b, false) else (record b { available = b.available - need }, true)

unfoldable pub try_consume : TokenBucket → ℕ → ℕ → TokenBucket × Bool
unfolding take_milli
try_consume b tokens now_ms = take_milli (refill b now_ms) (mul64 tokens 1000)

drain_milli : TokenBucket → ℕ → TokenBucket
drain_milli b need = record b { available = b.available - need }

unfoldable pub debit_saturating : TokenBucket → ℕ → ℕ → TokenBucket
unfolding drain_milli
debit_saturating b tokens now_ms = drain_milli (refill b now_ms) (sat_mul64 tokens 1000)

unfoldable pub clone_state : TokenBucket → TokenBucket
clone_state b = record {
  available = b.available;
  last_refill_ms = b.last_refill_ms;
  capacity_milli = b.capacity_milli;
  refill_milli_per_ms = b.refill_milli_per_ms;
}

unfoldable pub available_tokens : TokenBucket → ℕ
available_tokens b = b.available / 1000
