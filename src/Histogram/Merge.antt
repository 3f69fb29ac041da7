-- ===== src/Histogram/Merge.antt =====
-- Merging is recording both sides: crates/router-server/src/histogram.rs.
use rapidrouter.Prelude.{ℕ, ◌≡◌, refl, sym, ap, ◌∙◌, List, [], ◌∷◌, ◌++◌, arith, add64}
use rapidrouter.Histogram.{
  Scale, LatencyHistogram, add_count, count, merge, bucket_of, record_ms, collect,
}

pub add64-add64 : (a n m : ℕ) → add64 (add64 a n) m ≡ add64 (add64 a m) n
add64-add64 a n m = omega arith

add_count-swap :
    (b n c m : ℕ) (h : LatencyHistogram)
    → add_count b n (add_count c m h) ≡ add_count c m (add_count b n h)
unfolding add_count
add_count-swap b n c m [] = ground (arith, add64-add64 0 n m)
add_count-swap b n c m ((d, k) ∷ rest) =
    let later = add_count-swap b n c m rest in
    ground (arith, later, add64-add64 k n m, add64-add64 0 n m)

pub add64-sum : (a m n : ℕ) → add64 (add64 a m) n ≡ add64 a (add64 m n)
add64-sum a m n = omega arith

add64-zero : (a m n : ℕ) → add64 a (add64 (add64 0 m) n) ≡ add64 (add64 a m) n
add64-zero a m n = omega arith

add_count-twice :
    (b n m : ℕ) (h : LatencyHistogram) → add_count b n (add_count b m h) ≡ add_count b (add64 m n) h
unfolding add_count
add_count-twice b n m [] = ground (arith, add64-sum 0 m n)
add_count-twice b n m ((d, k) ∷ rest) =
    let later = add_count-twice b n m rest in
    ground (arith, later, add64-sum k m n, add64-sum 0 m n)

pub add_count-zero : (b n : ℕ) (h : LatencyHistogram) → add_count b (add64 0 n) h ≡ add_count b n h
unfolding add_count
add_count-zero b n [] =
    let same : add64 0 (add64 0 n) ≡ add64 0 n = omega arith in ap (λ k. (b, k) ∷ []) same
add_count-zero b n ((d, k) ∷ rest) =
    let later = add_count-zero b n rest in
    let same : add64 0 (add64 0 n) ≡ add64 0 n = omega arith in
    let same' : add64 k (add64 0 n) ≡ add64 k n = omega arith in ground (arith, later, same, same')

pub add_count-merge :
    (b n : ℕ) (h g : LatencyHistogram) → add_count b n (merge h g) ≡ merge (add_count b n h) g
unfolding merge
add_count-merge b n h [] = refl
add_count-merge b n h ((d, k) ∷ rest) =
    add_count-merge b n (add_count d k h) rest
    ∙ ap (λ (l : LatencyHistogram). merge l rest) (add_count-swap b n d k h)

pub merge-add_count :
    (b n : ℕ) (h g : LatencyHistogram) → merge h (add_count b n g) ≡ add_count b n (merge h g)
unfolding merge add_count
merge-add_count b n h [] = add_count-zero b n h
merge-add_count b n h ((d, k) ∷ rest) =
    let later = merge-add_count b n (add_count d k h) rest in
    let moved = add_count-merge b n (add_count d k h) rest in
    let twice = ap (λ (l : LatencyHistogram). merge l rest) (add_count-twice d n k h) in
    let before =
      ap (λ (l : LatencyHistogram). merge (add_count d k l) rest) (add_count-zero b n h)
      ∙ ap (λ (l : LatencyHistogram). merge l rest) (add_count-swap d k b n h) in
    ground (arith, later, moved, twice, before)

module _ (scale : Scale) where
  merge-collect-on :
      (h g : LatencyHistogram) (ms : List ℕ)
      → merge h (collect scale g ms) ≡ collect scale (merge h g) ms
  unfolding collect record_ms
  merge-collect-on h g [] = refl
  merge-collect-on h g (x ∷ rest) =
      merge-collect-on h (add_count (bucket_of scale x) 1 g) rest
      ∙ ap (λ (l : LatencyHistogram). collect scale l rest)
          (merge-add_count (bucket_of scale x) 1 h g)

  collect-append :
      (h : LatencyHistogram) (xs ys : List ℕ)
      → collect scale h (xs ++ ys) ≡ collect scale (collect scale h xs) ys
  unfolding collect record_ms
  collect-append h [] ys = refl
  collect-append h (x ∷ xs) ys = collect-append (add_count (bucket_of scale x) 1 h) xs ys

  -- Merging the histograms of two runs of readings gives, bucket for bucket, the histogram of both runs
  -- recorded in one.
  pub merge-collect :
      (xs ys : List ℕ)
      → merge (collect scale [] xs) (collect scale [] ys) ≡ collect scale [] (xs ++ ys)
  unfolding merge
  merge-collect xs ys = merge-collect-on (collect scale [] xs) [] ys ∙ sym (collect-append [] xs ys)

  count-add_count : (b : ℕ) (h : LatencyHistogram) → count (add_count b 1 h) ≡ add64 (count h) 1
  unfolding count add_count
  count-add_count b [] = refl
  count-add_count b ((d, k) ∷ rest) =
      let later = count-add_count b rest in
      let one : add64 (add64 k 1) (count rest) ≡ add64 (add64 k (count rest)) 1 = omega arith in
      let new : add64 (add64 0 1) (add64 k (count rest)) ≡ add64 (add64 k (count rest)) 1 =
        omega arith in
      let on : add64 k (add64 (count rest) 1) ≡ add64 (add64 k (count rest)) 1 = omega arith in
      ground (arith, later, one, new, on)
