-- ===== src/Metering/Tail.antt =====
-- What the metering body of crates/router-server/src/usage.rs keeps of a response: the proofs about
-- `MeteredBody::observe`.
use mathlib.Core.List.{append_assoc, append-nil}
use rapidrouter.Prelude.{
  ℕ, zero, suc, ◌+◌, ◌-◌, ◌≤◌, ◌≡◌, refl, sym, ap, ◌∙◌, List, [], ◌∷◌, ◌++◌, length, take, drop,
  min, length-append, length-take, length-drop, leb, ltb, arith, Bool-cases, inl, inr,
  if◌then◌else◌,
}
use rapidrouter.Metering.{MeteredBody, observe}

module _ {A : Type 0} where
  take_at : (n m : ℕ) (xs : List A) → n ≡ m → take n xs ≡ take m xs
  take_at n m xs e = ap (λ k. take k xs) e

  drop_at : (n m : ℕ) (xs : List A) → n ≡ m → drop n xs ≡ drop m xs
  drop_at n m xs e = ap (λ k. drop k xs) e

  drop-++ : (n : ℕ) (xs ys : List A) → drop n (xs ++ ys) ≡ drop n xs ++ drop (n - length xs) ys
  drop-++ zero xs ys = ap (λ l. xs ++ l) (drop_at 0 (0 - length xs) ys (omega arith))
  drop-++ (suc n) [] ys = drop_at (suc n) (suc n - 0) ys (omega arith)
  drop-++ (suc n) (x ∷ xs) ys =
      drop-++ n xs ys
      ∙ ap (λ l. drop n xs ++ l)
          (drop_at (n - length xs) (suc n - suc (length xs)) ys (omega arith))

  take-++ : (n : ℕ) (xs ys : List A) → take n (xs ++ ys) ≡ take n xs ++ take (n - length xs) ys
  take-++ zero xs ys = take_at 0 (0 - length xs) ys (omega arith)
  take-++ (suc n) [] ys = take_at (suc n) (suc n - 0) ys (omega arith)
  take-++ (suc n) (x ∷ xs) ys =
      ap (λ l. x ∷ l)
        (take-++ n xs ys
          ∙ ap (λ l. take n xs ++ l)
              (take_at (n - length xs) (suc n - suc (length xs)) ys (omega arith)))

  drop-all : (n : ℕ) (xs : List A) → length xs ≤ n → drop n xs ≡ []
  drop-all zero [] h = refl
  drop-all (suc n) [] h = refl
  drop-all zero (x ∷ xs) h = absurd (omega arith)
  drop-all (suc n) (x ∷ xs) h = drop-all n xs (omega arith)

  take-all : (n : ℕ) (xs : List A) → length xs ≤ n → take n xs ≡ xs
  take-all zero [] h = refl
  take-all (suc n) [] h = refl
  take-all zero (x ∷ xs) h = absurd (omega arith)
  take-all (suc n) (x ∷ xs) h = ap (λ l. x ∷ l) (take-all n xs (omega arith))

  drop-drop : (n m : ℕ) (xs : List A) → drop n (drop m xs) ≡ drop (m + n) xs
  drop-drop n zero xs = drop_at n (0 + n) xs (omega arith)
  drop-drop n (suc m) [] = drop-all n [] (omega arith) ∙ sym (drop-all (suc m + n) [] (omega arith))
  drop-drop n (suc m) (x ∷ xs) =
      drop-drop n m xs ∙ drop_at (suc (m + n)) (suc m + n) (x ∷ xs) (omega arith)

  take-min : (n : ℕ) (xs : List A) → take (min n (length xs)) xs ≡ take n xs
  take-min n xs = elim (Bool-cases (leb n (length xs))) [
    | inl short ↦ take_at (min n (length xs)) n xs (ground arith)
    | inr long ↦
        take_at (min n (length xs)) (length xs) xs (ground arith)
        ∙ take-all (length xs) xs (omega arith)
        ∙ sym (take-all n xs (ground arith))
  ]

  pub drop-nil : (n : ℕ) → drop {A = A} n [] ≡ []
  drop-nil zero = refl
  drop-nil (suc n) = refl

  pub take-nil : (n : ℕ) → take {A = A} n [] ≡ []
  take-nil zero = refl
  take-nil (suc n) = refl

  -- The last `cap` elements of two lists joined.
  last-++ :
      (cap : ℕ) (seen chunk : List A)
      → (if leb cap (length chunk)
          then drop (length chunk - cap) chunk
          else drop
              (length (drop (length seen - cap) seen) + length chunk - cap)
              (drop (length seen - cap) seen)
            ++ chunk)
        ≡ drop (length (seen ++ chunk) - cap) (seen ++ chunk)
  last-++ cap seen chunk =
      let n = length seen + length chunk - cap in
      let whole =
        drop_at (length (seen ++ chunk) - cap) n (seen ++ chunk)
          (omega (arith, length-append seen chunk))
        ∙ drop-++ n seen chunk in
      elim (Bool-cases (leb cap (length chunk))) [
        | inl full ↦
            let gone = drop-all n seen (ground arith) in
            let left = drop_at (n - length seen) (length chunk - cap) chunk (ground arith) in
            rw full (sym (whole ∙ ap (λ l. l ++ drop (n - length seen) chunk) gone ∙ left))
        | inr part ↦
            let kept = length-drop (length seen - cap) seen in
            let over = length (drop (length seen - cap) seen) + length chunk - cap in
            let same =
              drop-drop over (length seen - cap) seen
              ∙ drop_at (length seen - cap + over) n seen (ground arith) in
            let rest = drop_at (n - length seen) 0 chunk (ground arith) in
            rw part (ap (λ l. l ++ chunk) same ∙ sym (whole ∙ ap (λ l. drop n seen ++ l) rest))
      ]

  -- The first `limit` elements of two lists joined.
  first-++ :
      (limit : ℕ) (seen chunk : List A)
      → (if ltb (length (take limit seen)) limit
          then take limit seen ++ take (min (limit - length (take limit seen)) (length chunk)) chunk
          else take limit seen)
        ≡ take limit (seen ++ chunk)
  first-++ limit seen chunk =
      let taken = length-take limit seen in
      let whole = take-++ limit seen chunk in
      elim (Bool-cases (ltb (length (take limit seen)) limit)) [
        | inl room ↦
            let left =
              take-min (limit - length (take limit seen)) chunk
              ∙ take_at (limit - length (take limit seen)) (limit - length seen) chunk
                  (ground arith) in
            rw room (ap (λ l. take limit seen ++ l) left ∙ sym whole)
        | inr full ↦
            let none_left = take_at (limit - length seen) 0 chunk (ground arith) in
            rw full (
              sym (whole ∙ ap (λ l. take limit seen ++ l) none_left ∙ append-nil (take limit seen)))
      ]

abbrev pub observe_all : ℕ → MeteredBody → List (List ℕ) → MeteredBody
observe_all cap b [] = b
observe_all cap b (chunk ∷ rest) = observe_all cap (observe cap b chunk) rest

abbrev pub joined : List (List ℕ) → List ℕ
joined [] = []
joined (chunk ∷ rest) = chunk ++ joined rest

-- The body holds the end and the head of what it has seen.
pub record Holds (cap limit : ℕ) (seen : List ℕ) (b : MeteredBody) : Type 0 where
  pub bound : b.capture_limit ≡ limit
  pub tail : b.tail ≡ drop (length seen - cap) seen
  pub captured : b.captured ≡ take limit seen

observe-Holds :
    (cap limit : ℕ) (seen chunk : List ℕ) (b : MeteredBody)
    → Holds cap limit seen b
    → Holds cap limit (seen ++ chunk) (observe cap b chunk)
unfolding observe
observe-Holds cap limit seen chunk b h = record {
  bound = h.bound;
  tail = rw h.tail (last-++ cap seen chunk);
  captured = rw (h.bound, h.captured) (first-++ limit seen chunk);
}

pub observe_all-Holds :
    (cap limit : ℕ) (seen : List ℕ) (chunks : List (List ℕ)) (b : MeteredBody)
    → Holds cap limit seen b
    → Holds cap limit (seen ++ joined chunks) (observe_all cap b chunks)
observe_all-Holds cap limit seen [] b h = rw append-nil h
observe_all-Holds cap limit seen (chunk ∷ rest) b h = rw (← append_assoc) (
    observe_all-Holds cap limit (seen ++ chunk) rest (observe cap b chunk)
      (observe-Holds cap limit seen chunk b h))

pub observe_all-same :
    (cap : ℕ) (b : MeteredBody) (chunks : List (List ℕ))
    → ((observe_all cap b chunks).status ≡ b.status)
      × ((observe_all cap b chunks).stream ≡ b.stream)
      × ((observe_all cap b chunks).dialect ≡ b.dialect)
unfolding observe
observe_all-same cap b [] = (refl, refl, refl)
observe_all-same cap b (chunk ∷ rest) = observe_all-same cap (observe cap b chunk) rest
