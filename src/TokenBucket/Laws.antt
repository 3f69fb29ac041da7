-- ===== src/TokenBucket/Laws.antt =====
-- What a bucket promises when one caller uses it at a time.
use rapidrouter.Prelude.{
  ℕ, ◌+◌, ◌-◌, ◌*◌, ◌≤◌, ◌<◌, ◌≡◌, min, u64_mod, if◌then◌else◌, List, [], ◌∷◌, All, ap, ◌∙◌, arith,
}
use rapidrouter.TokenBucket.{TokenBucket, new_bucket, refill, try_consume, debit_saturating}

-- The balance never passes the capacity.
abbrev pub IsValid : TokenBucket → Type 0
IsValid b = b.available ≤ b.capacity_milli

-- A new bucket is within its capacity, and a refill, a consumption and a debit at any time keep it
-- there, as they keep the capacity and the rate.
pub ops-IsValid :
    (b : TokenBucket) (tokens now_ms capacity per_second : ℕ)
    → IsValid b
    → IsValid (new_bucket capacity per_second)
      × IsValid (refill b now_ms)
      × IsValid (try_consume b tokens now_ms).0
      × IsValid (debit_saturating b tokens now_ms)
      × ((try_consume b tokens now_ms).0.capacity_milli ≡ b.capacity_milli)
      × ((try_consume b tokens now_ms).0.refill_milli_per_ms ≡ b.refill_milli_per_ms)
unfolding new_bucket refill try_consume debit_saturating
ops-IsValid b tokens now_ms capacity per_second v = ground arith

-- The sums of a refill at this time stay within 64 bits.
abbrev pub Fits : TokenBucket → ℕ → Type 0
Fits b now_ms = b.available + (now_ms - b.last_refill_ms) * b.refill_milli_per_ms < u64_mod

-- Where the sums fit, a refill credits the elapsed time at the rate, up to the capacity, and moves the
-- time stamp forward only.
pub refill-exact :
    (b : TokenBucket) (now_ms : ℕ)
    → IsValid b
    → Fits b now_ms
    → ((refill b now_ms).available
        ≡ min (b.available + (now_ms - b.last_refill_ms) * b.refill_milli_per_ms) b.capacity_milli)
      × (b.last_refill_ms ≤ (refill b now_ms).last_refill_ms)
      × (now_ms ≤ (refill b now_ms).last_refill_ms)
unfolding refill
refill-exact b now_ms v fits = grind arith

spread : (rate d last : ℕ) → d * rate + rate * last ≡ rate * (d + last)
spread rate d last = omega arith

-- The rate times a stretch of time is the difference of its ends.
pub rate_gap :
    (rate last now_ms : ℕ) → last ≤ now_ms → (now_ms - last) * rate + rate * last ≡ rate * now_ms
rate_gap rate last now_ms h = spread rate (now_ms - last) last ∙ ap (λ t. rate * t) (omega arith)

-- One caller that asks for whole tokens at these times, and how many it is granted.
unfoldable pub granted : TokenBucket → List (ℕ × ℕ) → TokenBucket × ℕ
granted b [] = (b, 0)
granted b ((tokens, now_ms) ∷ calls) =
    let (b', answer) = try_consume b tokens now_ms in
    let (b'', rest) = granted b' calls in (b'', if answer then tokens + rest else rest)

try_consume-pays :
    (b : TokenBucket) (tokens now_ms : ℕ)
    → tokens * 1000 < u64_mod
    → let (b', answer) = try_consume b tokens now_ms in
      (b'.refill_milli_per_ms ≡ b.refill_milli_per_ms)
      × (b.last_refill_ms ≤ b'.last_refill_ms)
      × ((if answer then tokens * 1000 else 0)
            + b'.available
            + b.refill_milli_per_ms * b.last_refill_ms
          ≤ b.available + b.refill_milli_per_ms * b'.last_refill_ms)
unfolding try_consume refill
try_consume-pays b tokens now_ms fits =
    ground (arith, rate_gap b.refill_milli_per_ms b.last_refill_ms now_ms)

-- Over any calls at any times, in any order, the tokens granted are at most the opening balance and the
-- rate times the time that the time stamp has moved over: 1000 millitokens for each token.
pub granted_bounded :
    (b : TokenBucket) (calls : List (ℕ × ℕ))
    → All (λ c. c.0 * 1000 < u64_mod) calls
    → let (b', n) = granted b calls in
      n * 1000 + b'.available + b.refill_milli_per_ms * b.last_refill_ms
      ≤ b.available + b.refill_milli_per_ms * b'.last_refill_ms
unfolding granted
granted_bounded b [] h = ground arith
granted_bounded b ((tokens, now_ms) ∷ calls) h = ground (
  arith,
  try_consume-pays b tokens now_ms h.0,
  granted_bounded (try_consume b tokens now_ms).0 calls h.1,
)

split_gap :
    (rate last t u : ℕ) → last ≤ t → t ≤ u → (u - last) * rate ≡ (t - last) * rate + (u - t) * rate
split_gap rate last t u h k =
    omega (arith, rate_gap rate last t h, rate_gap rate t u k, rate_gap rate last u (omega arith))

-- Where the second refill fits, refilling on the way changes nothing: elapsed time is credited once.
pub refill-refill :
    (b : TokenBucket) (t u : ℕ) → IsValid b → t ≤ u → Fits b u → refill (refill b t) u ≡ refill b u
unfolding refill
refill-refill b t u v after fits =
    ground (arith, split_gap b.refill_milli_per_ms b.last_refill_ms t u)

-- Past 64 bits the sum wraps: when the elapsed time is worth 2^64 millitokens or more, a refill of a
-- valid bucket that holds some leaves it one millitoken lower than before.
pub refill_overflow :
    (b : TokenBucket) (now_ms : ℕ)
    → 0 < b.available
    → b.available < u64_mod
    → IsValid b
    → b.last_refill_ms < now_ms
    → u64_mod ≤ (now_ms - b.last_refill_ms) * b.refill_milli_per_ms
    → (refill b now_ms).available + 1 ≡ b.available
unfolding refill
refill_overflow b now_ms pos small v after big = ground arith
