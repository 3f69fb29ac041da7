-- ===== src/EventStream/Frames.antt =====
-- The frames of a stream do not depend on how the network cuts it, as long as no frame declares a length
-- out of range: crates/router-core/src/eventstream.rs.
use rapidrouter.Prelude.{
  ℕ, zero, suc, ◌+◌, ◌≤◌, ◌≡◌, refl, sym, ap, subst, ◌∙◌, Bool, true, false, ◌||◌, Option, none,
  some, List, [], ◌∷◌, ◌++◌, append_assoc, append-nil, Option-cases, Bool-cases, inl, inr, length,
  drop, take, length-drop, length-append, arith, ltb, if◌then◌else◌,
}
use rapidrouter.Framing.{
  IsCut, emit, frames, frames_stop, frames-cut, frames-append, frames_left, frames_fuel,
  take-append-le,
}
use rapidrouter.Sse.{SseEvent}
use rapidrouter.Sse.Chunks.{joined}
use rapidrouter.EventStream.{
  prelude_len, max_frame, number_at, slice, be_bytes, add, decode_frame, push_loop, push,
}

-- The declared length is out of range: the parser drops its buffer.
unfoldable pub is_corrupt : List ℕ → Bool
is_corrupt buf =
    if ltb (length buf) prelude_len
    then false
    else ltb (number_at 0 4 buf) (prelude_len + 4) || ltb max_frame (number_at 0 4 buf)

module _ (crc32 : List ℕ → ℕ) (lossy : List ℕ → List ℕ) where
  unfoldable pub cut_frame : List ℕ → Option (ℕ × Option SseEvent)
  unfolding is_corrupt
  cut_frame buf =
      if ltb (length buf) prelude_len || is_corrupt buf || ltb (length buf) (number_at 0 4 buf)
      then none
      else some (number_at 0 4 buf, decode_frame crc32 lossy (take (number_at 0 4 buf) buf))

  number_at-append :
      (buf more : List ℕ) → 4 ≤ length buf → number_at 0 4 (buf ++ more) ≡ number_at 0 4 buf
  unfolding number_at slice
  number_at-append buf more h = ap (be_bytes 0) (take-append-le 4 buf more h)

  is_corrupt-append :
      (buf more : List ℕ) → prelude_len ≤ length buf → is_corrupt (buf ++ more) ≡ is_corrupt buf
  unfolding is_corrupt
  is_corrupt-append buf more h =
      ground (arith, number_at-append buf more (omega arith), length-append buf more)

  cut_frame-eq :
      (buf : List ℕ) (n : ℕ) (e : Option SseEvent)
      → cut_frame buf ≡ some (n, e)
      → (prelude_len ≤ length buf)
        × (is_corrupt buf ≡ false)
        × (n ≡ number_at 0 4 buf)
        × (n ≤ length buf)
        × (16 ≤ n)
        × (e ≡ decode_frame crc32 lossy (take n buf))
  unfolding cut_frame is_corrupt
  cut_frame-eq buf n e h =
      (ground arith, ground arith, ground arith, ground arith, ground arith, ground arith)

  pub eq-cut_frame :
      (buf : List ℕ)
      → prelude_len ≤ length buf
      → is_corrupt buf ≡ false
      → number_at 0 4 buf ≤ length buf
      → cut_frame buf
        ≡ some (number_at 0 4 buf, decode_frame crc32 lossy (take (number_at 0 4 buf) buf))
  unfolding cut_frame
  eq-cut_frame buf room clean whole = ground (arith, room, clean, whole)

  pub cut_frame-IsCut : IsCut cut_frame
  cut_frame-IsCut = record {
    takes = λ buf n e h.
        let (room, clean, same, within, least, decoded) = cut_frame-eq buf n e h in
        (omega arith, within);
    grows = λ buf more n e h.
        let (room, clean, same, within, least, decoded) = cut_frame-eq buf n e h in
        let front = number_at-append buf more (omega arith) in
        let both = length-append buf more in
        eq-cut_frame (buf ++ more) (omega arith) (is_corrupt-append buf more room ∙ clean)
          (omega arith)
        ∙ rw (front, ← same, take-append-le n buf more within, ← decoded) refl;
  }

  -- A buffer whose next frame declares a length out of range is dropped.
  abbrev pub settle : List SseEvent × List ℕ → List ℕ × List SseEvent
  settle (events, rest) = if is_corrupt rest then ([], events) else (rest, events)

  add-settle :
      (e : Option SseEvent) (r : List SseEvent × List ℕ)
      → add e (settle r) ≡ settle (emit e r.0, r.1)
  unfolding is_corrupt
  add-settle none r = refl
  add-settle (some event) r = elim (Bool-cases (is_corrupt r.1)) [
    | inl bad ↦ rw bad refl
    | inr good ↦ rw good refl
  ]

  push_loop_stop :
      (fuel : ℕ) (buf : List ℕ)
      → cut_frame buf ≡ none
      → push_loop crc32 lossy (suc fuel) buf ≡ settle ([], buf)
  unfolding push_loop cut_frame is_corrupt
  push_loop_stop fuel buf h = ground (arith, h)

  pub push_loop_step :
      (fuel : ℕ) (buf : List ℕ) (n : ℕ) (e : Option SseEvent)
      → cut_frame buf ≡ some (n, e)
      → push_loop crc32 lossy (suc fuel) buf ≡ add e (push_loop crc32 lossy fuel (drop n buf))
  unfolding push_loop is_corrupt
  push_loop_step fuel buf n e h =
      let (room, clean, same, within, least, decoded) = cut_frame-eq buf n e h in
      rw (← same, ← decoded) (ground (arith, room, clean, within))

  pub push_loop-frames :
      (fuel g : ℕ) (buf : List ℕ)
      → length buf ≤ fuel
      → length buf ≤ g
      → push_loop crc32 lossy fuel buf ≡ settle (frames cut_frame g buf)
  unfolding push_loop is_corrupt cut_frame
  push_loop-frames zero g [] h le = rw (frames_stop cut_frame g [] refl) refl
  push_loop-frames zero g (b ∷ rest) h le = absurd (omega arith)
  push_loop-frames (suc fuel) g buf h le = elim (Option-cases (cut_frame buf)) [
    | inl stop ↦ push_loop_stop fuel buf stop ∙ sym (ap settle (frames_stop cut_frame g buf stop))
    | inr ((n, e), found) ↦
        let (some_bytes, within) = cut_frame-IsCut.takes buf n e found in
        let shorter = length-drop n buf in
        push_loop_step fuel buf n e found
        ∙ ap (add e) (push_loop-frames fuel g (drop n buf) (omega arith) (omega arith))
        ∙ add-settle e (frames cut_frame g (drop n buf))
        ∙ sym (ap settle (frames-cut cut_frame cut_frame-IsCut g buf n e le found))
  ]

  -- No length out of range is met in the stream.
  abbrev pub IsClean : List ℕ → Type 0
  IsClean stream = is_corrupt (frames cut_frame (length stream) stream).1 ≡ false

  leftover-append :
      (x b : List ℕ)
      → (frames cut_frame (length (x ++ b)) (x ++ b)).1
        ≡ (frames cut_frame
            (length ((frames cut_frame (length x) x).1 ++ b))
            ((frames cut_frame (length x) x).1 ++ b)).1
  leftover-append x b =
      let first = frames cut_frame (length x) x in
      let left = frames_left cut_frame cut_frame-IsCut (length x) x in
      let both = length-append x b in
      let rest = length-append first.1 b in
      ap (λ (r : List SseEvent × List ℕ). r.1)
        (frames-append cut_frame cut_frame-IsCut (length x) (length (x ++ b)) x b (omega arith)
            (omega arith)
          ∙ ap (λ (r : List SseEvent × List ℕ). (first.0 ++ r.0, r.1))
              (frames_fuel cut_frame cut_frame-IsCut (length (x ++ b)) (length (first.1 ++ b))
                (first.1 ++ b) (omega arith) (omega arith)))

  -- A corrupt buffer stays so.
  corrupt-append :
      (buf b : List ℕ)
      → is_corrupt buf ≡ true
      → is_corrupt (frames cut_frame (length (buf ++ b)) (buf ++ b)).1 ≡ true
  unfolding is_corrupt cut_frame
  corrupt-append buf b h =
      let still = is_corrupt-append buf b (ground (arith, h)) in
      let none_cut : cut_frame (buf ++ b) ≡ none = ground (arith, still, h) in
      rw (frames_stop cut_frame (length (buf ++ b)) (buf ++ b) none_cut) (still ∙ h)

  IsClean-append :
      (x b : List ℕ)
      → IsClean (x ++ b)
      → IsClean x × IsClean ((frames cut_frame (length x) x).1 ++ b)
  IsClean-append x b clean =
      let left = (frames cut_frame (length x) x).1 in
      let rest_clean = ap is_corrupt (sym (leftover-append x b)) ∙ clean in
      (
        elim (Bool-cases (is_corrupt left)) [
          | inl bad ↦ cc (corrupt-append left b bad, rest_clean)
          | inr good ↦ good
        ],
        rest_clean,
      )

  push-frames :
      (buffer chunk : List ℕ)
      → IsClean (buffer ++ chunk)
      → (g : ℕ) → length (buffer ++ chunk) ≤ g
      → push crc32 lossy buffer chunk
        ≡ ((frames cut_frame g (buffer ++ chunk)).1, (frames cut_frame g (buffer ++ chunk)).0)
  unfolding push
  push-frames buffer chunk clean g le =
      push_loop-frames (length (buffer ++ chunk)) (length (buffer ++ chunk)) (buffer ++ chunk)
        (omega arith) (omega arith)
      ∙ rw clean (
          ap (λ (r : List SseEvent × List ℕ). (r.1, r.0))
            (frames_fuel cut_frame cut_frame-IsCut (length (buffer ++ chunk)) g (buffer ++ chunk)
              (omega arith) le))

  -- Chunks in turn.
  unfoldable pub push_all : List ℕ → List (List ℕ) → List ℕ × List SseEvent
  push_all buffer [] = (buffer, [])
  push_all buffer (chunk ∷ rest) =
      let (next, events) = push crc32 lossy buffer chunk in
      let (last, later) = push_all next rest in (last, events ++ later)

  push-append :
      (buffer a b : List ℕ)
      → IsClean (buffer ++ (a ++ b))
      → push crc32 lossy buffer (a ++ b) ≡ (
        (push crc32 lossy (push crc32 lossy buffer a).0 b).0,
        (push crc32 lossy buffer a).1 ++ (push crc32 lossy (push crc32 lossy buffer a).0 b).1,
      )
  push-append buffer a b clean =
      let x = buffer ++ a in
      let g = length x + length b in
      let first = frames cut_frame (length x) x in
      let left = frames_left cut_frame cut_frame-IsCut (length x) x in
      let both = length-append x b in
      let rest = length-append first.1 b in
      let assoc = append_assoc buffer a b in
      let (clean_x, clean_rest) = IsClean-append x b (subst IsClean (sym assoc) clean) in
      push-frames buffer (a ++ b) clean g (rw (← assoc) (omega arith))
      ∙ ap (λ (y : List ℕ). ((frames cut_frame g y).1, (frames cut_frame g y).0)) (sym assoc)
      ∙ ap (λ (r : List SseEvent × List ℕ). (r.1, r.0))
          (frames-append cut_frame cut_frame-IsCut (length x) g x b (omega arith) (omega arith))
      ∙ sym (
          rw (push-frames buffer a clean_x (length x) (omega arith))
            (rw (push-frames first.1 b clean_rest g (omega arith)) refl))

  -- However the network cuts a stream in which no frame declares a length out of range, the events are
  -- those of the whole stream read at once, and the same bytes are pending at its end.
  pub push_all-joined_clean :
      (buffer chunk : List ℕ) (rest : List (List ℕ))
      → IsClean (buffer ++ joined (chunk ∷ rest))
      → push_all buffer (chunk ∷ rest) ≡ push crc32 lossy buffer (joined (chunk ∷ rest))
  unfolding push_all
  push_all-joined_clean buffer chunk [] clean =
      rw (append-nil chunk, append-nil (push crc32 lossy buffer chunk).1) refl
  push_all-joined_clean buffer chunk (next ∷ rest) clean =
      let later = joined (next ∷ rest) in
      let x = buffer ++ chunk in
      let (clean_x, clean_rest) =
        IsClean-append x later (subst IsClean (sym (append_assoc buffer chunk later)) clean) in
      let first = push-frames buffer chunk clean_x (length x) (omega arith) in
      ap (λ (r : List ℕ × List SseEvent). (r.0, (push crc32 lossy buffer chunk).1 ++ r.1))
        (push_all-joined_clean (push crc32 lossy buffer chunk).0 next rest
          (subst (λ (r : List ℕ × List SseEvent). IsClean (r.0 ++ later)) (sym first) clean_rest))
      ∙ sym (push-append buffer chunk later clean)
