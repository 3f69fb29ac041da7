-- ===== src/Histogram/Rank.antt =====
-- What a percentile reads back: crates/router-server/src/histogram.rs.
use rapidrouter.Prelude.{
  ℕ, ◌+◌, ◌≤◌, ◌<◌, ◌≡◌, refl, ap, ◌∙◌, false, Option, none, some, [], ◌∷◌, ◌++◌, Bool-cases, inl,
  inr, arith, leb, ◌==◌, add64, u64_mod,
}
use rapidrouter.Histogram.{
  Scale, LatencyHistogram, count, upper_bound_ms, upper_of, percentile, walk,
}

-- The counts added up without a word's bound.
unfoldable pub total : LatencyHistogram → ℕ
total [] = 0
total ((b, n) ∷ rest) = n + total rest

count-total : (h : LatencyHistogram) → total h < u64_mod → count h ≡ total h
unfolding count total
count-total [] room = refl
count-total ((b, n) ∷ rest) room = let later = count-total rest (omega arith) in omega arith

-- The bucket at which the rank is reached, and what comes before it.
abbrev pub IsReached : ℕ → ℕ → LatencyHistogram → ℕ → Type 0
IsReached rank seen h bucket =
    (before : LatencyHistogram) × (n : ℕ) × (after : LatencyHistogram) × (h
      ≡ before ++ ((bucket, n) ∷ after))
    × (seen + total before < rank)
    × (rank ≤ seen + total before + n)

walk-later :
    (rank seen : ℕ) (last : Option ℕ) (b n : ℕ) (rest : LatencyHistogram)
    → add64 seen n ≡ seen + n
    → leb rank (seen + n) ≡ false
    → walk rank seen last ((b, n) ∷ rest) ≡ walk rank (seen + n) (some b) rest
unfolding walk
walk-later rank seen last b n rest plain later = rw (plain, later) refl

walk-IsReached :
    (rank seen : ℕ) (last : Option ℕ) (h : LatencyHistogram)
    → seen < rank
    → rank ≤ seen + total h
    → seen + total h < u64_mod
    → (bucket : ℕ) × (walk rank seen last h ≡ some bucket) × IsReached rank seen h bucket
unfolding walk total
walk-IsReached rank seen last [] below reached room = absurd (omega arith)
walk-IsReached rank seen last ((b, n) ∷ rest) below reached room =
    let plain : add64 seen n ≡ seen + n = omega arith in
    elim (Bool-cases (leb rank (seen + n))) [
      | inl here ↦
          (b, rw (plain, here) refl, ([], n, rest, refl, omega arith, ground (arith, here)))
      | inr later ↦
          let (bucket, found, (before, m, after, parts, less, most)) =
            walk-IsReached rank (seen + n) (some b) rest (ground (arith, later)) (omega arith)
              (omega arith) in
          (
            bucket,
            walk-later rank seen last b n rest plain later ∙ found,
            (
              (b, n) ∷ before,
              m,
              after,
              ap (λ (l : LatencyHistogram). (b, n) ∷ l) parts,
              omega arith,
              omega arith,
            ),
          )
    ]

-- A percentile is read at the bucket that holds the reading of its rank: where the counts fit a word and
-- the rank is one of the readings, the answer is the upper bound of a bucket such that fewer readings than
-- the rank are in the buckets before it, and no fewer with its own.
pub percentile-IsReached :
    (scale : Scale) (h : LatencyHistogram) (p : ℕ)
    → 1 ≤ scale.rank p (count h)
    → scale.rank p (count h) ≤ count h
    → total h < u64_mod
    → (bucket : ℕ) × (percentile scale h p ≡ upper_bound_ms scale bucket)
      × IsReached (scale.rank p (count h)) 0 h bucket
unfolding percentile upper_of
percentile-IsReached scale h p least most room =
    let same = count-total h room in
    let some_count : (count h == 0) ≡ false = ground (arith, least, most) in
    let (bucket, found, rest) =
      walk-IsReached (scale.rank p (count h)) 0 none h (omega arith) (omega arith) (omega arith) in
    (bucket, rw (some_count, found) refl, rest)
