-- ===== src/Sse/Boundary.antt =====
-- The blank-line terminator of crates/router-core/src/sse.rs: where it is found, and that it is found
-- again when more bytes have come.
use rapidrouter.Prelude.{
  ℕ, zero, suc, ◌+◌, ◌≤◌, ◌<◌, ◌≡◌, sym, ap, Option, none, some, List, [], ◌∷◌, ◌++◌, ◌⊎◌,
  Option-cases, inl, inr, length, drop, take, length-drop, length-append, arith,
}
use rapidrouter.Framing.{IsCut, drop-append-le, take-append-le}
use rapidrouter.Sse.{line_break_len, boundary_loop, find_event_boundary, read_block, SseEvent}

-- A line break that is recognised is the same when more bytes follow, unless none was there.
line_break_len-append :
    (b : ℕ) (rest more : List ℕ) (n : ℕ)
    → line_break_len (b ∷ rest) ≡ some n
    → line_break_len (b ∷ (rest ++ more)) ≡ some n
unfolding line_break_len
line_break_len-append b [] more n h = ground arith
line_break_len-append b (c ∷ rest) more n h = ground arith

line_break_len-le : (buf : List ℕ) (n : ℕ) → line_break_len buf ≡ some n → n ≤ length buf
unfolding line_break_len
line_break_len-le [] n h = ground arith
line_break_len-le (b ∷ []) n h = ground arith
line_break_len-le (b ∷ c ∷ rest) n h = ground arith

-- A round of the loop that ends with a boundary: it went on past a byte, went on past a lone line break,
-- or found the second break.
abbrev Ends : ℕ → ℕ → ℕ → List ℕ → ℕ × ℕ → Type 0
Ends fuel i b rest r =
    ((line_break_len (b ∷ rest) ≡ some 0) × (boundary_loop fuel (i + 1) rest ≡ some r))
    ⊎ ((k : ℕ) × (line_break_len (b ∷ rest) ≡ some (suc k))
        × (line_break_len (drop k rest) ≡ some 0)
        × (boundary_loop fuel (i + suc k) (drop k rest) ≡ some r))
    ⊎ ((k : ℕ) × (second : ℕ) × (line_break_len (b ∷ rest) ≡ some (suc k))
        × (line_break_len (drop k rest) ≡ some (suc second))
        × (r ≡ (i, i + suc k + suc second)))

boundary_loop-Ends :
    (fuel i b : ℕ) (rest : List ℕ) (r : ℕ × ℕ)
    → boundary_loop (suc fuel) i (b ∷ rest) ≡ some r
    → Ends fuel i b rest r
unfolding boundary_loop
boundary_loop-Ends fuel i b rest r h = elim (Option-cases (line_break_len (b ∷ rest))) [
  | inl stop ↦ absurd (ground (arith, stop))
  | inr (zero, on) ↦ inl (on, ground (arith, on))
  | inr (suc k, first) ↦ elim (Option-cases (line_break_len (drop k rest))) [
    | inl stop ↦ absurd (ground (arith, first, stop))
    | inr (zero, on) ↦ inr (inl (k, first, on, ground (arith, first, on)))
    | inr (suc second, found) ↦ inr (inr (k, second, first, found, ground (arith, first, found)))
  ]
]

Ends-boundary_loop :
    (fuel i b : ℕ) (rest : List ℕ) (r : ℕ × ℕ)
    → Ends fuel i b rest r
    → boundary_loop (suc fuel) i (b ∷ rest) ≡ some r
unfolding boundary_loop
Ends-boundary_loop fuel i b rest r (inl (on, later)) = rw (on, boundary_loop) later
Ends-boundary_loop fuel i b rest r (inr (inl (k, first, on, later))) =
    rw (first, boundary_loop) (rw (on, boundary_loop) later)
Ends-boundary_loop fuel i b rest r (inr (inr (k, second, first, found, same))) =
    rw (first, boundary_loop) (rw (found, boundary_loop) (ap some (sym same)))

-- A second break is more than nothing, so it stands in bytes that are there.
second-append :
    (buf more : List ℕ) (second : ℕ)
    → line_break_len buf ≡ some (suc second)
    → line_break_len (buf ++ more) ≡ some (suc second)
unfolding line_break_len
second-append [] more second h = absurd (ground (arith, h))
second-append (b ∷ rest) more second h = line_break_len-append b rest more (suc second) h

boundary_loop-bounds :
    (fuel i : ℕ) (buf : List ℕ) (r : ℕ × ℕ)
    → boundary_loop fuel i buf ≡ some r
    → (i ≤ r.0) × (r.0 < r.1) × (r.1 ≤ i + length buf)
unfolding boundary_loop
boundary_loop-bounds fuel i [] r h = absurd (ground (arith, h))
boundary_loop-bounds zero i (b ∷ rest) r h = absurd (ground (arith, h))
boundary_loop-bounds (suc fuel) i (b ∷ rest) r h = elim (boundary_loop-Ends fuel i b rest r h) [
  | inl (on, later) ↦ omega (arith, boundary_loop-bounds fuel (i + 1) rest r later)
  | inr (inl (k, first, on, later)) ↦ omega (
    arith,
    boundary_loop-bounds fuel (i + suc k) (drop k rest) r later,
    length-drop k rest,
    line_break_len-le (b ∷ rest) (suc k) first,
  )
  | inr (inr (k, second, first, found, same)) ↦ omega (
    arith,
    ap (λ (p : ℕ × ℕ). p.0) same,
    ap (λ (p : ℕ × ℕ). p.1) same,
    length-drop k rest,
    line_break_len-le (b ∷ rest) (suc k) first,
    line_break_len-le (drop k rest) (suc second) found,
  )
]

-- Where the loop goes on to a boundary there are bytes, and no break stands at the first of them still.
byte-append :
    (f i : ℕ) (buf more : List ℕ) (r : ℕ × ℕ)
    → boundary_loop f i buf ≡ some r
    → line_break_len buf ≡ some 0
    → line_break_len (buf ++ more) ≡ some 0
unfolding boundary_loop
byte-append f i [] more r h on = absurd (ground (arith, h))
byte-append f i (b ∷ rest) more r h on = line_break_len-append b rest more 0 on

boundary_loop-append :
    (f g i : ℕ) (buf more : List ℕ) (r : ℕ × ℕ)
    → boundary_loop f i buf ≡ some r
    → f ≤ g
    → boundary_loop g i (buf ++ more) ≡ some r
unfolding boundary_loop
boundary_loop-append f g i [] more r h le = absurd (ground (arith, h))
boundary_loop-append zero g i (b ∷ rest) more r h le = absurd (ground (arith, h))
boundary_loop-append (suc f) zero i (b ∷ rest) more r h le = absurd (omega arith)
boundary_loop-append (suc f) (suc g) i (b ∷ rest) more r h le =
    Ends-boundary_loop g i b (rest ++ more) r (elim (boundary_loop-Ends f i b rest r h) [
      | inl (on, later) ↦ inl (
        line_break_len-append b rest more 0 on,
        boundary_loop-append f g (i + 1) rest more r later (omega arith),
      )
      | inr (inl (k, first, on, later)) ↦
          let within = line_break_len-le (b ∷ rest) (suc k) first in
          let apart = drop-append-le k rest more (omega arith) in
          inr (
            inl (
              k,
              line_break_len-append b rest more (suc k) first,
              rw apart (byte-append f (i + suc k) (drop k rest) more r later on),
              rw apart
                  (boundary_loop-append f g (i + suc k) (drop k rest) more r later (omega arith)),
            ))
      | inr (inr (k, second, first, found, same)) ↦
          let within = line_break_len-le (b ∷ rest) (suc k) first in
          inr (
            inr (
              k,
              second,
              line_break_len-append b rest more (suc k) first,
              rw (drop-append-le k rest more (omega arith))
                  (second-append (drop k rest) more second found),
              same,
            ))
    ])

-- The block at the front of a buffer: the bytes that it takes with its terminator, and its event.
unfoldable pub cut_block : List ℕ → Option (ℕ × Option SseEvent)
cut_block buf = elim (find_event_boundary buf) [
  | none ↦ none
  | some (start, end) ↦ some (end, read_block (take start buf))
]

cut_block-eq :
    (buf : List ℕ) (n : ℕ) (e : Option SseEvent)
    → cut_block buf ≡ some (n, e)
    → (start : ℕ) × (find_event_boundary buf ≡ some (start, n)) × (e ≡ read_block (take start buf))
unfolding cut_block
cut_block-eq buf n e h = elim (Option-cases (find_event_boundary buf)) [
  | inl stop ↦ absurd (ground (arith, h, stop))
  | inr ((start, end), found) ↦ (start, ground (arith, found), ground (arith, found))
]

pub cut_block-IsCut : IsCut cut_block
unfolding find_event_boundary cut_block
cut_block-IsCut = record {
  takes = λ buf n e h.
      let (start, found, same) = cut_block-eq buf n e h in
      let (after, some_bytes, within) = boundary_loop-bounds (length buf) 0 buf (start, n) found in
      (omega arith, omega arith);
  grows = λ buf more n e h.
      let (start, found, same) = cut_block-eq buf n e h in
      let (after, some_bytes, within) = boundary_loop-bounds (length buf) 0 buf (start, n) found in
      let again =
        boundary_loop-append (length buf) (length (buf ++ more)) 0 buf more (start, n) found
          (omega (arith, length-append buf more)) in
      rw (again, cut_block, take-append-le start buf more (omega arith))
        (ap (λ o. some (n, o)) (sym same));
}
