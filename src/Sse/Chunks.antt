-- ===== src/Sse/Chunks.antt =====
-- The events of a stream do not depend on how the network cuts it: crates/router-core/src/sse.rs.
use rapidrouter.Prelude.{
  ℕ, zero, suc, ◌+◌, ◌≤◌, ◌<◌, ◌≡◌, refl, sym, ap, ◌∙◌, Option, none, some, List, [], ◌∷◌, ◌++◌,
  append_assoc, append-nil, Option-cases, inl, inr, length, drop, take, length-drop, length-append,
  arith,
}
use rapidrouter.Framing.{frames, frames_stop, frames-cut, frames-append, frames_left, frames_done}
use rapidrouter.Sse.{
  SseEvent, SseParser, find_event_boundary, read_block, next_event, then_more, event_loop, push,
}
use rapidrouter.Sse.Boundary.{cut_block, cut_block-IsCut}

-- What one call of `next_event` makes of the frames of the buffer.
abbrev Next : ℕ → List ℕ → List ℕ × Option SseEvent → Type 0
Next fuel buf (rest, none) = frames cut_block fuel buf ≡ ([], rest)
Next fuel buf (rest, some e) =
    (length rest < length buf)
    × (frames cut_block fuel buf
        ≡ (e ∷ (frames cut_block fuel rest).0, (frames cut_block fuel rest).1))

Next-skip :
    (fuel : ℕ) (buf rest : List ℕ) (r : List ℕ × Option SseEvent)
    → frames cut_block fuel buf ≡ frames cut_block fuel rest
    → length rest ≤ length buf
    → Next fuel rest r
    → Next fuel buf r
Next-skip fuel buf rest (last, none) same le next = same ∙ next
Next-skip fuel buf rest (last, some e) same le next = (omega (arith, next.0), same ∙ next.1)

next_event-Next :
    (fuel g : ℕ) (buf : List ℕ)
    → length buf ≤ fuel
    → length buf ≤ g
    → Next g buf (next_event fuel buf)
unfolding next_event cut_block
next_event-Next zero g [] h le = frames_stop cut_block g [] refl
next_event-Next zero g (b ∷ rest) h le = absurd (omega arith)
next_event-Next (suc fuel) g buf h le = elim (Option-cases (find_event_boundary buf)) [
  | inl stop ↦ rw (stop, next_event) (frames_stop cut_block g buf (rw (stop, cut_block) refl))
  | inr ((start, end), found) ↦
      let (takes, within) =
        cut_block-IsCut.takes buf end (read_block (take start buf)) (rw (found, cut_block) refl) in
      let first =
        frames-cut cut_block cut_block-IsCut g buf end (read_block (take start buf)) le
          (rw (found, cut_block) refl) in
      let shorter = length-drop end buf in
      elim (Option-cases (read_block (take start buf))) [
        | inl quiet ↦
            rw (found, next_event)
              (rw (quiet, next_event)
                (Next-skip g buf (drop end buf) (next_event fuel (drop end buf))
                  (first ∙ rw quiet refl) (omega arith)
                  (next_event-Next fuel g (drop end buf) (omega arith) (omega arith))))
        | inr (e, read) ↦
            rw (found, next_event) (rw (read, next_event) (omega arith, first ∙ rw read refl))
      ]
]

then_more-frames :
    (g : ℕ) (buf : List ℕ) (r : List ℕ × Option SseEvent) (more : List ℕ → List ℕ × List SseEvent)
    → Next g buf r
    → ((rest : List ℕ)
        → length rest < length buf
        → more rest ≡ ((frames cut_block g rest).1, (frames cut_block g rest).0))
    → then_more r more ≡ ((frames cut_block g buf).1, (frames cut_block g buf).0)
unfolding then_more
then_more-frames g buf (rest, none) more next again = rw next refl
then_more-frames g buf (rest, some e) more (shorter, next) again =
    rw (next, again rest shorter) refl

event_loop-frames :
    (fuel g : ℕ) (buf : List ℕ)
    → length buf ≤ fuel
    → length buf ≤ g
    → event_loop fuel buf ≡ ((frames cut_block g buf).1, (frames cut_block g buf).0)
unfolding event_loop cut_block
event_loop-frames zero g [] h le = rw (frames_stop cut_block g [] refl) refl
event_loop-frames zero g (b ∷ rest) h le = absurd (omega arith)
event_loop-frames (suc fuel) g buf h le =
    then_more-frames g buf (next_event (length buf) buf) (event_loop fuel)
      (next_event-Next (length buf) g buf (omega arith) le)
      (λ rest shorter. event_loop-frames fuel g rest (omega arith) (omega arith))

cut_block-none : (buf : List ℕ) → cut_block buf ≡ none → find_event_boundary buf ≡ none
unfolding cut_block
cut_block-none buf h = elim (Option-cases (find_event_boundary buf)) [
  | inl stop ↦ stop
  | inr ((start, end), found) ↦ absurd (ground (arith, h, found))
]

-- The loop of `push` ends: as many rounds as there are bytes are enough, more give the same, and no whole
-- block is left in the buffer.
pub event_loop_ends :
    (fuel : ℕ) (buf : List ℕ)
    → length buf ≤ fuel
    → (event_loop fuel buf ≡ event_loop (length buf) buf)
      × (find_event_boundary (event_loop fuel buf).0 ≡ none)
event_loop_ends fuel buf enough =
    let all = event_loop-frames fuel fuel buf enough enough in
    let least = event_loop-frames (length buf) fuel buf (omega arith) enough in
    (
      all ∙ sym least,
      rw all (
          cut_block-none (frames cut_block fuel buf).1
            (frames_done cut_block cut_block-IsCut fuel buf enough)),
    )

-- The parser returns all the events of its buffer that are whole, and keeps the rest of it.
abbrev pub pack : List SseEvent × List ℕ → SseParser × List SseEvent
pack (events, rest) = (record { buffer = rest }, events)

pub push-frames :
    (p : SseParser) (chunk : List ℕ) (g : ℕ)
    → length (p.buffer ++ chunk) ≤ g
    → push p chunk ≡ pack (frames cut_block g (p.buffer ++ chunk))
unfolding push
push-frames p chunk g le =
    ap (λ (r : List ℕ × List SseEvent). (record { buffer = r.0 }, r.1))
      (event_loop-frames (length (p.buffer ++ chunk)) g (p.buffer ++ chunk) (omega arith) le)

-- Chunks in turn.
unfoldable pub push_all : SseParser → List (List ℕ) → SseParser × List SseEvent
push_all p [] = (p, [])
push_all p (chunk ∷ rest) =
    let (next, events) = push p chunk in
    let (last, later) = push_all next rest in (last, events ++ later)

abbrev pub joined : List (List ℕ) → List ℕ
joined [] = []
joined (chunk ∷ rest) = chunk ++ joined rest

-- Two chunks are read as their concatenation is.
pub push-append :
    (p : SseParser) (a b : List ℕ)
    → push p (a ++ b) ≡ ((push (push p a).0 b).0, (push p a).1 ++ (push (push p a).0 b).1)
push-append p a b =
    let x = p.buffer ++ a in
    let g = length x + length b in
    let first = frames cut_block (length x) x in
    let left = frames_left cut_block cut_block-IsCut (length x) x in
    let both = length-append x b in
    let rest = length-append first.1 b in
    push-frames p (a ++ b) g (rw (sym (append_assoc p.buffer a b)) (omega arith))
    ∙ ap (λ (y : List ℕ). pack (frames cut_block g y)) (sym (append_assoc p.buffer a b))
    ∙ ap pack (frames-append cut_block cut_block-IsCut (length x) g x b (omega arith) (omega arith))
    ∙ sym (
        rw (push-frames p a (length x) (omega arith))
          (rw (push-frames (record { buffer = first.1 }) b g (omega arith)) refl))

-- However the network cuts a stream, the events are those of the whole stream read at once, and the same
-- bytes are pending at its end.
pub push_all-joined :
    (p : SseParser) (chunk : List ℕ) (rest : List (List ℕ))
    → push_all p (chunk ∷ rest) ≡ push p (joined (chunk ∷ rest))
unfolding push_all
push_all-joined p chunk [] = rw (append-nil chunk, append-nil (push p chunk).1) refl
push_all-joined p chunk (next ∷ rest) =
    ap (λ (r : SseParser × List SseEvent). (r.0, (push p chunk).1 ++ r.1))
      (push_all-joined (push p chunk).0 next rest)
    ∙ sym (push-append p chunk (joined (next ∷ rest)))
