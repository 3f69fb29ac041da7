-- ===== src/Histogram/Examples.antt =====
-- A few readings on a scale of its own, and the theorems about crates/router-server/src/histogram.rs there.
use rapidrouter.Prelude.{◌+◌, ◌/◌, ◌*◌, ◌≡◌, refl, [], ◌∷◌, ◌++◌}
use rapidrouter.Histogram.{Scale, collect, merge, percentile}
use rapidrouter.Histogram.Merge.{merge-collect}

-- Ten milliseconds to a bucket, and the median.
abbrev tens : Scale
tens = record { steps = λ ms. ms / 10; power = λ b. b * 10; rank = λ p n. (n + 1) / 2 }

merge-collect_example :
    merge (collect tens [] (25 ∷ 3 ∷ [])) (collect tens [] (7 ∷ 25 ∷ 0 ∷ []))
    ≡ collect tens [] ((25 ∷ 3 ∷ []) ++ (7 ∷ 25 ∷ 0 ∷ []))
merge-collect_example = merge-collect tens (25 ∷ 3 ∷ []) (7 ∷ 25 ∷ 0 ∷ [])

median : percentile tens (collect tens [] (25 ∷ 3 ∷ 7 ∷ 25 ∷ 0 ∷ [])) 50 ≡ 10
unfolding percentile collect
median = refl
