-- ===== src/Sse.antt =====
-- crates/router-core/src/sse.rs: the incremental parser of server-sent events. A byte is a number, and a
-- text is its bytes in UTF-8.
pub mod Boundary
pub mod Chunks
pub mod RoundTrip
mod Examples
use rapidrouter.Prelude.{
  ℕ, zero, suc, ◌+◌, Bool, true, false, Option, none, some, List, [], ◌∷◌, ◌++◌, keep, map,
  is_empty, is_some, not, length, take, drop, ◌==◌, if◌then◌else◌, ◌&&◌, is_utf8, split_byte,
  strip_first, strip_last, starts_with, same_bytes, join_bytes,
}

abbrev pub newline : ℕ
newline = 10

abbrev pub carriage : ℕ
carriage = 13

abbrev pub colon : ℕ
colon = 58

abbrev pub space : ℕ
space = 32

-- "data" and "event".
abbrev pub data_field : List ℕ
data_field = 100 ∷ 97 ∷ 116 ∷ 97 ∷ []

abbrev pub event_field : List ℕ
event_field = 101 ∷ 118 ∷ 101 ∷ 110 ∷ 116 ∷ []

pub record SseEvent : Type 0 where
  pub event : Option (List ℕ)
  pub payload : List ℕ

-- `SseParser`; its buffer is all it holds.
pub record SseParser : Type 0 where
  pub buffer : List ℕ

unfoldable pub new_parser : SseParser
new_parser = record { buffer = [] }

unfoldable pub pending : SseParser → ℕ
pending p = length p.buffer

-- After a carriage return: the second byte, if it is there.
after_carriage : List ℕ → Option ℕ
after_carriage [] = none
after_carriage (b ∷ rest) = if b == newline then some 2 else some 1

unfoldable pub line_break_len : List ℕ → Option ℕ
unfolding after_carriage
line_break_len [] = some 0
line_break_len (b ∷ rest) =
    if b == newline then some 1 else if b == carriage then after_carriage rest else some 0

-- The buffer from place `i` on. Each round goes on by a byte at least.
unfoldable pub boundary_loop : ℕ → ℕ → List ℕ → Option (ℕ × ℕ)
unfolding line_break_len
boundary_loop fuel i [] = none
boundary_loop zero i (b ∷ rest) = none
boundary_loop (suc fuel) i (b ∷ rest) = elim (line_break_len (b ∷ rest)) [
  | none ↦ none
  | some zero ↦ boundary_loop fuel (i + 1) rest
  | some (suc k) ↦ elim (line_break_len (drop k rest)) [
    | none ↦ none
    | some zero ↦ boundary_loop fuel (i + suc k) (drop k rest)
    | some (suc second) ↦ some (i, i + suc k + suc second)
  ]
]

-- The start and the end of the first blank-line terminator.
unfoldable pub find_event_boundary : List ℕ → Option (ℕ × ℕ)
unfolding boundary_loop
find_event_boundary buf = boundary_loop (length buf) 0 buf

unfoldable pub split_on : ℕ → List ℕ → List (List ℕ)
split_on c [] = [] ∷ []
split_on c (b ∷ rest) =
    let later = split_on c rest in
    if b == c
    then [] ∷ later
    else elim later [ [] ↦ (b ∷ []) ∷ [] | line ∷ lines ↦ (b ∷ line) ∷ lines ]

unfoldable pub split_lines : List ℕ → List (List ℕ)
unfolding split_on
split_lines block =
    keep (λ line. not (is_empty line)) (map (strip_last carriage) (split_on newline block))

-- The loop's variables.
pub record Fields : Type 0 where
  pub event_name : Option (List ℕ)
  pub data_lines : List (List ℕ)

-- A line with no colon is a field with no value.
unfoldable pub field_of : List ℕ → List ℕ × List ℕ
field_of line = elim (split_byte colon line) [
  | none ↦ (line, [])
  | some (name, value) ↦ (name, strip_first space value)
]

unfoldable pub read_field : Fields → List ℕ × List ℕ → Fields
read_field f (name, value) =
    if same_bytes name data_field
    then record f { data_lines = f.data_lines ++ (value ∷ []) }
    else if same_bytes name event_field
    then record f { event_name = some value }
    else f

unfoldable pub read_line : Fields → List ℕ → Fields
unfolding field_of read_field
read_line f line =
    if not (is_utf8 line)
    then f
    else if starts_with colon line
    then f
    else read_field f (field_of line)

unfoldable pub read_lines : Fields → List (List ℕ) → Fields
unfolding read_line
read_lines f [] = f
read_lines f (line ∷ rest) = read_lines (read_line f line) rest

-- A block of comments alone makes no event.
unfoldable pub event_of : Fields → Option SseEvent
event_of f =
    if is_empty f.data_lines && not (is_some f.event_name)
    then none
    else some (record { event = f.event_name; payload = join_bytes (newline ∷ []) f.data_lines })

unfoldable pub read_block : List ℕ → Option SseEvent
unfolding read_lines split_lines event_of
read_block block =
    event_of (read_lines (record { event_name = none; data_lines = [] }) (split_lines block))

-- What is left of the buffer, and the next event. Each block takes bytes, so the length of the buffer is
-- fuel enough.
unfoldable pub next_event : ℕ → List ℕ → List ℕ × Option SseEvent
unfolding find_event_boundary read_block
next_event zero buf = (buf, none)
next_event (suc fuel) buf = elim (find_event_boundary buf) [
  | none ↦ (buf, none)
  | some (start, end) ↦ elim (read_block (take start buf)) [
    | none ↦ next_event fuel (drop end buf)
    | some event ↦ (drop end buf, some event)
  ]
]

unfoldable pub then_more :
    List ℕ × Option SseEvent → (List ℕ → List ℕ × List SseEvent) → List ℕ × List SseEvent
then_more (rest, none) more = (rest, [])
then_more (rest, some event) more = let (last, later) = more rest in (last, event ∷ later)

unfoldable pub event_loop : ℕ → List ℕ → List ℕ × List SseEvent
unfolding next_event then_more
event_loop zero buf = (buf, [])
event_loop (suc fuel) buf = then_more (next_event (length buf) buf) (event_loop fuel)

unfoldable pub push : SseParser → List ℕ → SseParser × List SseEvent
unfolding event_loop
push p chunk =
    let (rest, events) = event_loop (length (p.buffer ++ chunk)) (p.buffer ++ chunk) in
    (record { buffer = rest }, events)

unfoldable pub format_data : List ℕ → List ℕ
format_data payload = data_field ++ (colon ∷ space ∷ (payload ++ (newline ∷ newline ∷ [])))

unfoldable pub format_event : Option (List ℕ) → List ℕ → List ℕ
unfolding format_data
format_event none payload = format_data payload
format_event (some name) payload =
    event_field ++ (colon ∷ space ∷ (name ++ (newline ∷ format_data payload)))
