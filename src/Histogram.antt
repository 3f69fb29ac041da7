-- ===== src/Histogram.antt =====
-- crates/router-server/src/histogram.rs: counts of latencies in buckets that grow by 2^(1/4), kept as the
-- list of the buckets in use and their counts, in order. The logarithm, the power and the rank of a
-- percentile are arithmetic on floats, which are arguments.
pub mod Merge
pub mod Rank
mod Examples
use rapidrouter.Prelude.{
  ℕ, ◌+◌, min, max, Option, none, some, List, [], ◌∷◌, ltb, leb, ◌==◌, if◌then◌else◌, add64,
}

abbrev pub max_bucket : ℕ
max_bucket = 96

-- `(STEPS_PER_OCTAVE * (ms as f64).log2()).floor()`, `2f64.powf(bucket / STEPS_PER_OCTAVE).ceil()`, and the
-- rank of a percentile of a total.
pub record Scale : Type 0 where
  pub steps : ℕ → ℕ
  pub power : ℕ → ℕ
  pub rank : ℕ → ℕ → ℕ

-- `BTreeMap<u16, u64>`: the buckets and their counts, in the order of the buckets.
abbrev pub LatencyHistogram : Type 0
LatencyHistogram = List (ℕ × ℕ)

-- `*entry(bucket).or_insert(0) += n`.
unfoldable pub add_count : ℕ → ℕ → LatencyHistogram → LatencyHistogram
add_count bucket n [] = (bucket, add64 0 n) ∷ []
add_count bucket n ((b, count) ∷ rest) =
    let later = add_count bucket n rest in
    if bucket == b
    then (b, add64 count n) ∷ rest
    else if ltb bucket b
    then (bucket, add64 0 n) ∷ (b, count) ∷ rest
    else (b, count) ∷ later

unfoldable pub count : LatencyHistogram → ℕ
count [] = 0
count ((b, n) ∷ rest) = add64 n (count rest)

unfoldable pub merge : LatencyHistogram → LatencyHistogram → LatencyHistogram
unfolding add_count
merge h [] = h
merge h ((b, n) ∷ rest) = merge (add_count b n h) rest

-- The walk of a percentile: the first bucket at which the rank is seen, and else the last.
unfoldable pub walk : ℕ → ℕ → Option ℕ → LatencyHistogram → Option ℕ
walk rank seen last [] = last
walk rank seen last ((b, n) ∷ rest) =
    let later = walk rank (add64 seen n) (some b) rest in
    if leb rank (add64 seen n) then some b else later

module _ (scale : Scale) where
  unfoldable pub bucket_of : ℕ → ℕ
  bucket_of ms = if ms == 0 then 0 else min (max (scale.steps ms + 1) 1) max_bucket

  unfoldable pub upper_bound_ms : ℕ → ℕ
  upper_bound_ms bucket = if bucket == 0 then 0 else scale.power bucket

  unfoldable pub record_ms : LatencyHistogram → ℕ → LatencyHistogram
  unfolding add_count bucket_of
  record_ms h ms = add_count (bucket_of ms) 1 h

  -- `from_iter`, onto a histogram.
  unfoldable pub collect : LatencyHistogram → List ℕ → LatencyHistogram
  unfolding record_ms
  collect h [] = h
  collect h (ms ∷ rest) = collect (record_ms h ms) rest

  unfoldable pub upper_of : Option ℕ → ℕ
  unfolding upper_bound_ms
  upper_of none = 0
  upper_of (some b) = upper_bound_ms b

  unfoldable pub percentile : LatencyHistogram → ℕ → ℕ
  unfolding walk upper_of count
  percentile h p = if count h == 0 then 0 else upper_of (walk (scale.rank p (count h)) 0 none h)
