-- ===== src/EventStream.antt =====
-- crates/router-core/src/eventstream.rs: the AWS event-stream framing. A byte is a number, and a text is
-- its bytes in UTF-8. The checksum (`crc32fast::hash`) and `String::from_utf8_lossy` are arguments.
pub mod Frames
pub mod Slices
pub mod Decode
pub mod RoundTrip
mod Examples
use rapidrouter.Prelude.{
  ℕ, zero, suc, ◌+◌, ◌-◌, ◌*◌, ◌/◌, ◌%◌, Bool, true, false, Option, none, some, List, [], ◌∷◌, ◌++◌,
  is_empty, not, length, take, drop, ltb, leb, ◌==◌, if◌then◌else◌, ◌&&◌, ◌||◌, is_utf8, same_bytes,
  get_elem?,
}
use rapidrouter.Sse.{SseEvent}

abbrev pub prelude_len : ℕ
prelude_len = 12

abbrev pub max_frame : ℕ
max_frame = 16777216

-- `from_be_bytes`: the number that bytes spell, the first the highest.
unfoldable pub be_bytes : ℕ → List ℕ → ℕ
be_bytes acc [] = acc
be_bytes acc (b ∷ rest) = be_bytes (acc * 256 + b) rest

-- `buf[from..from + count]`.
unfoldable pub slice : ℕ → ℕ → List ℕ → List ℕ
slice start count bytes = take count (drop start bytes)

unfoldable pub number_at : ℕ → ℕ → List ℕ → ℕ
unfolding slice be_bytes
number_at start count bytes = be_bytes 0 (slice start count bytes)

-- `get(from..from + count)`, which is `None` where the bytes are not all there.
unfoldable pub get_slice : ℕ → ℕ → List ℕ → Option (List ℕ)
unfolding slice
get_slice start count bytes =
    if leb (start + count) (length bytes) then some (slice start count bytes) else none

-- `:event-type`, `:message-type`, `exception`.
abbrev pub event_type_name : List ℕ
event_type_name = 58 ∷ 101 ∷ 118 ∷ 101 ∷ 110 ∷ 116 ∷ 45 ∷ 116 ∷ 121 ∷ 112 ∷ 101 ∷ []

abbrev pub message_type_name : List ℕ
message_type_name = 58 ∷ 109 ∷ 101 ∷ 115 ∷ 115 ∷ 97 ∷ 103 ∷ 101 ∷ 45 ∷ 116 ∷ 121 ∷ 112 ∷ 101 ∷ []

abbrev pub exception : List ℕ
exception = 101 ∷ 120 ∷ 99 ∷ 101 ∷ 112 ∷ 116 ∷ 105 ∷ 111 ∷ 110 ∷ []

-- The loop's variables.
pub record Headers : Type 0 where
  pub event_type : Option (List ℕ)
  pub message_type : Option (List ℕ)

unfoldable pub as_text : Option (List ℕ) → Option (List ℕ)
as_text none = none
as_text (some bytes) = if is_utf8 bytes then some bytes else none

unfoldable pub note : Headers → List ℕ → List ℕ → Headers
note h name value =
    if same_bytes name event_type_name
    then record h { event_type = some value }
    else if same_bytes name message_type_name
    then record h { message_type = some value }
    else h

-- One header, and the bytes after it.
unfoldable pub read_value :
    Headers → List ℕ → ℕ → Option (List ℕ) → Option ℕ → Option (Headers × List ℕ)
unfolding get_slice as_text number_at note
read_value h headers name_len none kind = none
read_value h headers name_len (some name) none = none
read_value h headers name_len (some name) (some kind) =
    if kind == 7
    then elim (get_slice (2 + name_len) 2 headers) [
      | none ↦ none
      | some size ↦
          let len = be_bytes 0 size in
          elim (as_text (get_slice (4 + name_len) len headers)) [
            | none ↦ none
            | some value ↦ some (note h name value, drop (4 + name_len + len) headers)
          ]
    ]
    else none

unfoldable pub read_header : Headers → ℕ → List ℕ → Option (Headers × List ℕ)
unfolding read_value
read_header h name_len headers =
    read_value h headers name_len (as_text (get_slice 1 name_len headers))
      (get_elem? headers (1 + name_len))

-- Each header takes bytes, so the length of the headers is fuel enough.
unfoldable pub header_loop : ℕ → Headers → List ℕ → Option Headers
unfolding read_header
header_loop fuel h [] = some h
header_loop zero h (b ∷ rest) = none
header_loop (suc fuel) h (b ∷ rest) = elim (read_header h b (b ∷ rest)) [
  | none ↦ none
  | some (h', later) ↦ header_loop fuel h' later
]

unfoldable pub is_exception : Option (List ℕ) → Bool
is_exception none = false
is_exception (some message_type) = same_bytes message_type exception

abbrev pub add : Option SseEvent → List ℕ × List SseEvent → List ℕ × List SseEvent
add none r = r
add (some event) r = (r.0, event ∷ r.1)

module _ (crc32 : List ℕ → ℕ) (lossy : List ℕ → List ℕ) where
  unfoldable pub event_of : List ℕ → List ℕ → Option Headers → Option SseEvent
  unfolding is_exception
  event_of frame payload none = none
  event_of frame payload (some h) = some (record {
    event = if is_exception h.message_type then some exception else h.event_type;
    payload = lossy payload;
  })

  -- `headers_end` is no more than `payload_end`, which is four bytes before the end.
  unfoldable pub decode_frame : List ℕ → Option SseEvent
  unfolding event_of header_loop number_at slice
  decode_frame frame =
      let headers_len = number_at 4 4 frame in
      let payload_end = length frame - 4 in
      let headers_end = prelude_len + headers_len in
      if not (crc32 (take 8 frame) == number_at 8 4 frame)
      then none
      else if ltb (length frame) 4 || ltb payload_end headers_end
      then none
      else if not (crc32 (take payload_end frame) == number_at payload_end 4 frame)
      then none
      else event_of frame (slice headers_end (payload_end - headers_end) frame) (
          header_loop headers_len (record { event_type = none; message_type = none })
            (slice prelude_len headers_len frame))

  -- The loop of `push`: each round takes a frame, so the length of the buffer is fuel enough.
  unfoldable pub push_loop : ℕ → List ℕ → List ℕ × List SseEvent
  push_loop zero buf = (buf, [])
  push_loop (suc fuel) buf =
      let total_len = number_at 0 4 buf in
      let rest = push_loop fuel (drop total_len buf) in
      if ltb (length buf) prelude_len
      then (buf, [])
      else if ltb total_len (prelude_len + 4) || ltb max_frame total_len
      then ([], [])
      else if ltb (length buf) total_len
      then (buf, [])
      else add (decode_frame (take total_len buf)) rest

  unfoldable pub push : List ℕ → List ℕ → List ℕ × List SseEvent
  unfolding push_loop
  push buffer chunk = push_loop (length (buffer ++ chunk)) (buffer ++ chunk)

-- `to_be_bytes` of a u32 and of a u16.
unfoldable pub put_u32 : ℕ → List ℕ
put_u32 n = (n / 16777216 % 256) ∷ (n / 65536 % 256) ∷ (n / 256 % 256) ∷ (n % 256) ∷ []

unfoldable pub put_u16 : ℕ → List ℕ
put_u16 n = (n / 256 % 256) ∷ (n % 256) ∷ []

-- `name.len() as u8` and `value.len() as u16`.
unfoldable pub put_header : List ℕ → List ℕ → List ℕ
unfolding put_u16
put_header name value =
    (length name % 256) ∷ (name ++ (7 ∷ (put_u16 (length value % 65536) ++ value)))

-- `event`, `:content-type` and `application/json`.
abbrev pub event_text : List ℕ
event_text = 101 ∷ 118 ∷ 101 ∷ 110 ∷ 116 ∷ []

abbrev pub content_type_name : List ℕ
content_type_name = 58 ∷ 99 ∷ 111 ∷ 110 ∷ 116 ∷ 101 ∷ 110 ∷ 116 ∷ 45 ∷ 116 ∷ 121 ∷ 112 ∷ 101 ∷ []

abbrev pub json_text : List ℕ
json_text =
    97 ∷ 112 ∷ 112 ∷ 108 ∷ 105 ∷ 99 ∷ 97 ∷ 116 ∷ 105 ∷ 111 ∷ 110 ∷ 47 ∷ 106 ∷ 115 ∷ 111 ∷ 110 ∷ []

unfoldable pub put_headers : List ℕ → List ℕ
put_headers event_type =
    put_header event_type_name event_type
    ++ (put_header message_type_name event_text ++ put_header content_type_name json_text)

unfoldable pub put_prelude : (List ℕ → ℕ) → ℕ → ℕ → List ℕ
put_prelude crc32 total_len headers_len =
    let lengths = put_u32 total_len ++ put_u32 headers_len in lengths ++ put_u32 (crc32 lengths)

unfoldable pub encode_event : (List ℕ → ℕ) → List ℕ → List ℕ → List ℕ
encode_event crc32 event_type payload =
    let headers = put_headers event_type in
    let total_len = prelude_len + length headers + length payload + 4 in
    let body = put_prelude crc32 total_len (length headers) ++ (headers ++ payload) in
    body ++ put_u32 (crc32 body)
