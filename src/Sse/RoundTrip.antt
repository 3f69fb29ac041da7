-- ===== src/Sse/RoundTrip.antt =====
-- An event written by `format_event` is read back by the parser: crates/router-core/src/sse.rs.
use rapidrouter.Prelude.{
  ℕ, zero, suc, ◌+◌, ◌≤◌, ◌≡◌, ◌≢◌, refl, sym, ap, subst, ◌∙◌, true, Option, none, some, List, [],
  ◌∷◌, ◌++◌, append_assoc, length, length-append, take-append, drop-append, All, arith, is_utf8,
  strip_last, split_byte, same_bytes, starts_with, strip_first, join_bytes,
}
use rapidrouter.Framing.{frames, frames-cut}
use rapidrouter.Sse.{
  SseEvent, SseParser, newline, carriage, colon, space, data_field, event_field, boundary_loop,
  find_event_boundary, line_break_len, read_block, read_line, read_lines, event_of, split_lines,
  split_on, format_data, format_event, push, new_parser, Fields,
}
use rapidrouter.Sse.Boundary.{cut_block, cut_block-IsCut}
use rapidrouter.Sse.Chunks.{push-frames, pack}

-- A text of one line.
abbrev pub IsLine : List ℕ → Type 0
IsLine = All (λ b. (b ≢ newline) × (b ≢ carriage))

IsLine-append : (xs ys : List ℕ) → IsLine xs → IsLine ys → IsLine (xs ++ ys)
IsLine-append [] ys a b = b
IsLine-append (x ∷ xs) ys a b = (a.0, IsLine-append xs ys a.1 b)

plain_byte :
    (b : ℕ) (rest : List ℕ) → b ≢ newline → b ≢ carriage → line_break_len (b ∷ rest) ≡ some 0
unfolding line_break_len
plain_byte b rest h k = ground (arith, h, k)

-- The search passes over a line.
boundary_loop-line :
    (line tail : List ℕ) (f fuel i : ℕ)
    → IsLine line
    → f ≡ length line + fuel
    → boundary_loop f i (line ++ tail) ≡ boundary_loop fuel (i + length line) tail
unfolding boundary_loop
boundary_loop-line [] tail f fuel i h e =
    let all_fuel : f ≡ fuel = omega arith in
    let here : i + 0 ≡ i = omega arith in rw (all_fuel, here) refl
boundary_loop-line (b ∷ line) tail zero fuel i h e = absurd (omega arith)
boundary_loop-line (b ∷ line) tail (suc f) fuel i h e =
    rw (plain_byte b (line ++ tail) h.0.0 h.0.1, boundary_loop)
      (boundary_loop-line line tail f fuel (i + 1) h.1 (omega arith)
        ∙ ap (λ j. boundary_loop fuel j tail) (omega arith))

-- Two newlines end the block.
boundary_loop-end :
    (rest : List ℕ) (fuel i : ℕ)
    → 1 ≤ fuel
    → boundary_loop fuel i (newline ∷ newline ∷ rest) ≡ some (i, i + 1 + 1)
unfolding boundary_loop
boundary_loop-end rest zero i h = absurd (omega arith)
boundary_loop-end rest (suc fuel) i h = refl

-- A lone newline does not.
boundary_loop-newline :
    (b : ℕ) (rest : List ℕ) (fuel i : ℕ)
    → b ≢ newline
    → b ≢ carriage
    → boundary_loop (suc fuel) i (newline ∷ b ∷ rest) ≡ boundary_loop fuel (i + 1) (b ∷ rest)
unfolding boundary_loop
boundary_loop-newline b rest fuel i h k = rw (plain_byte b rest h k, boundary_loop) refl

-- Lines that are cut at their newlines.
split_on-line :
    (line tail : List ℕ)
    → IsLine line
    → split_on newline (line ++ (newline ∷ tail)) ≡ line ∷ split_on newline tail
unfolding split_on
split_on-line [] tail h = ground arith
split_on-line (b ∷ line) tail h = rw (split_on-line line tail h.1, split_on) (ground (arith, h.0))

split_on-last : (line : List ℕ) → IsLine line → split_on newline line ≡ line ∷ []
unfolding split_on
split_on-last [] h = refl
split_on-last (b ∷ line) h = rw (split_on-last line h.1, split_on) (ground (arith, h.0))

strip_last-line : (line : List ℕ) → IsLine line → strip_last carriage line ≡ line
unfolding strip_last
strip_last-line [] h = refl
strip_last-line (b ∷ []) h = ground (arith, h.0)
strip_last-line (b ∷ c ∷ line) h = ap (λ t. b ∷ t) (strip_last-line (c ∷ line) h.1)

-- The lines that an event is written as, and what the parser makes of each.
abbrev data_line : List ℕ → List ℕ
data_line payload = data_field ++ (colon ∷ space ∷ payload)

abbrev event_line : List ℕ → List ℕ
event_line name = event_field ++ (colon ∷ space ∷ name)

read_data :
    (f : Fields) (payload : List ℕ)
    → is_utf8 payload ≡ true
    → read_line f (data_line payload) ≡ record f { data_lines = f.data_lines ++ (payload ∷ []) }
unfolding read_line is_utf8 split_byte same_bytes starts_with strip_first
read_data f payload h = rw h refl

read_event :
    (f : Fields) (name : List ℕ)
    → is_utf8 name ≡ true
    → read_line f (event_line name) ≡ record f { event_name = some name }
unfolding read_line is_utf8 split_byte same_bytes starts_with strip_first
read_event f name h = rw h refl

block_data :
    (payload : List ℕ)
    → IsLine payload
    → is_utf8 payload ≡ true
    → read_block (data_line payload) ≡ some (record { event = none; payload = payload })
unfolding read_block read_lines split_lines event_of join_bytes
block_data payload one utf8 =
    let whole : IsLine (data_line payload) =
      IsLine-append (data_field ++ (colon ∷ space ∷ [])) payload (omega arith) one in
    let line = split_on-last (data_line payload) whole in
    let same = strip_last-line (data_line payload) whole in
    rw (line, same, read_data (record { event_name = none; data_lines = [] }) payload utf8) refl

block_event :
    (name payload : List ℕ)
    → IsLine name
    → IsLine payload
    → is_utf8 name ≡ true
    → is_utf8 payload ≡ true
    → read_block (event_line name ++ (newline ∷ data_line payload))
      ≡ some (record { event = some name; payload = payload })
unfolding read_block read_lines split_lines event_of join_bytes
block_event name payload named one utf8 utf8' =
    let first : IsLine (event_line name) =
      IsLine-append (event_field ++ (colon ∷ space ∷ [])) name (omega arith) named in
    let second : IsLine (data_line payload) =
      IsLine-append (data_field ++ (colon ∷ space ∷ [])) payload (omega arith) one in
    let empty : Fields = record { event_name = none; data_lines = [] } in
    rw
      (
        split_on-line (event_line name) (data_line payload) first,
        split_on-last (data_line payload) second,
        strip_last-line (event_line name) first,
        strip_last-line (data_line payload) second,
        read_event empty name utf8,
        read_data (record empty { event_name = some name }) payload utf8',
      )
      refl

-- A text up to its blank line is cut off whole.
cut_block-text :
    (text rest : List ℕ)
    → find_event_boundary (text ++ (newline ∷ newline ∷ rest))
      ≡ some (length text, length text + 1 + 1)
    → cut_block (text ++ (newline ∷ newline ∷ rest)) ≡ some (length text + 1 + 1, read_block text)
unfolding cut_block
cut_block-text text rest found =
    rw (found, cut_block)
      (ap (λ t. some (length text + 1 + 1, read_block t))
        (take-append text (newline ∷ newline ∷ rest)))

boundary-line :
    (line rest : List ℕ)
    → IsLine line
    → find_event_boundary (line ++ (newline ∷ newline ∷ rest))
      ≡ some (length line, length line + 1 + 1)
unfolding find_event_boundary
boundary-line line rest one =
    boundary_loop-line line (newline ∷ newline ∷ rest) _ (suc (suc (length rest))) 0 one
      (omega (arith, length-append line (newline ∷ newline ∷ rest)))
    ∙ boundary_loop-end rest (suc (suc (length rest))) (0 + length line) (omega arith)
    ∙ ap (λ n. some (n, n + 1 + 1)) (omega arith)

boundary-lines :
    (first second rest : List ℕ) (b : ℕ)
    → IsLine first
    → IsLine (b ∷ second)
    → find_event_boundary ((first ++ (newline ∷ b ∷ second)) ++ (newline ∷ newline ∷ rest))
      ≡ some (
        length (first ++ (newline ∷ b ∷ second)),
        length (first ++ (newline ∷ b ∷ second)) + 1 + 1,
      )
unfolding find_event_boundary
boundary-lines first second rest b one two =
    let tail = newline ∷ newline ∷ rest in
    let fuel = length (b ∷ second) + suc (suc (length rest)) in
    let whole = length-append (first ++ (newline ∷ b ∷ second)) tail in
    let front = length-append first (newline ∷ b ∷ second) in
    ap (boundary_loop (length ((first ++ (newline ∷ b ∷ second)) ++ tail)) 0)
      (append_assoc first (newline ∷ b ∷ second) tail)
    ∙ boundary_loop-line first (newline ∷ b ∷ (second ++ tail)) _ (suc fuel) 0 one (omega arith)
    ∙ boundary_loop-newline b (second ++ tail) fuel (0 + length first) two.0.0 two.0.1
    ∙ boundary_loop-line (b ∷ second) tail fuel (suc (suc (length rest))) (0 + length first + 1) two
        (omega arith)
    ∙ boundary_loop-end rest (suc (suc (length rest))) (0 + length first + 1 + length (b ∷ second))
        (omega arith)
    ∙ ap (λ n. some (n, n + 1 + 1)) (omega arith)

-- A text that `format_event` can carry: valid UTF-8 on one line.
abbrev pub IsText : List ℕ → Type 0
IsText text = IsLine text × (is_utf8 text ≡ true)

abbrev pub IsName : Option (List ℕ) → Type 0
IsName none = Unit {0}
IsName (some name) = IsText name

cut_block-format_event :
    (event : Option (List ℕ)) (payload rest : List ℕ)
    → IsName event
    → IsText payload
    → cut_block (format_event event payload ++ rest)
      ≡ some
          (length (format_event event payload), some (record { event = event; payload = payload }))
unfolding format_event format_data
cut_block-format_event none payload rest named (one, utf8) =
    let ends = newline ∷ newline ∷ [] in
    let whole : IsLine (data_line payload) =
      IsLine-append (data_field ++ (colon ∷ space ∷ [])) payload (omega arith) one in
    ap cut_block (append_assoc (data_line payload) ends rest)
    ∙ cut_block-text (data_line payload) rest (boundary-line (data_line payload) rest whole)
    ∙ rw (block_data payload one utf8) (
        ap (λ n. some (n, some (record { event = none; payload = payload })))
          (omega (arith, length-append (data_line payload) ends)))
cut_block-format_event (some name) payload rest (named, name_utf8) (one, utf8) =
    let ends = newline ∷ newline ∷ [] in
    let first : IsLine (event_line name) =
      IsLine-append (event_field ++ (colon ∷ space ∷ [])) name (omega arith) named in
    let second : IsLine (data_line payload) =
      IsLine-append (data_field ++ (colon ∷ space ∷ [])) payload (omega arith) one in
    let text = event_line name ++ (newline ∷ data_line payload) in
    let written : format_event (some name) payload ≡ text ++ ends =
      sym (append_assoc (event_line name) (newline ∷ data_line payload) ends) in
    subst
      (λ t.
        cut_block (t ++ rest)
        ≡ some (length t, some (record { event = some name; payload = payload })))
      (sym written)
      (ap cut_block (append_assoc text ends rest)
        ∙ cut_block-text text rest (
            boundary-lines (event_line name) (97 ∷ 116 ∷ 97 ∷ colon ∷ space ∷ payload) rest 100
              first second)
        ∙ rw (block_event name payload named one name_utf8 utf8) (
            ap (λ n. some (n, some (record { event = some name; payload = payload })))
              (omega (arith, length-append text ends))))

-- An event on one line, with its name on one line, is read back as it was written, and what follows it is
-- read as it would be alone.
pub push-format_event :
    (event : Option (List ℕ)) (payload rest : List ℕ)
    → IsName event
    → IsText payload
    → push new_parser (format_event event payload ++ rest) ≡ (
      (push new_parser rest).0,
      record { event = event; payload = payload } ∷ (push new_parser rest).1,
    )
unfolding new_parser
push-format_event event payload rest named one =
    let bytes = format_event event payload in
    let g = length (bytes ++ rest) in
    let both = length-append bytes rest in
    push-frames new_parser (bytes ++ rest) g (omega arith)
    ∙ ap pack (
        frames-cut cut_block cut_block-IsCut g (bytes ++ rest) (length bytes)
          (some (record { event = event; payload = payload })) (omega arith)
          (cut_block-format_event event payload rest named one)
        ∙ ap
            (λ (b : List ℕ). (
              record { event = event; payload = payload } ∷ (frames cut_block g b).0,
              (frames cut_block g b).1,
            ))
            (drop-append bytes rest))
    ∙ ap
        (λ (r : SseParser × List SseEvent).
          (r.0, record { event = event; payload = payload } ∷ r.1))
        (sym (push-frames new_parser rest g (omega arith)))
