-- ===== src/EventStream/RoundTrip.antt =====
-- A frame written by `encode_event` is read back: crates/router-core/src/eventstream.rs.
use rapidrouter.Prelude.{
  ℕ, suc, ◌+◌, ◌-◌, ◌≤◌, ◌<◌, ◌≡◌, refl, sym, ap, ◌∙◌, true, false, some, List, [], ◌++◌,
  append_assoc, length, take, length-append, take-append, drop-append, arith, is_utf8, same_bytes,
}
use rapidrouter.Sse.{SseEvent}
use rapidrouter.EventStream.{
  be_bytes, slice, number_at, put_u32, put_header, put_headers, put_prelude, encode_event,
  header_loop, event_text, decode_frame, event_of, is_exception, prelude_len, max_frame, push,
  push_loop, add,
}
use rapidrouter.EventStream.Slices.{be_bytes-put_u32, slice-append}
use rapidrouter.EventStream.Frames.{
  is_corrupt, cut_frame, eq-cut_frame, push_loop_step, push_loop-frames,
}
use rapidrouter.EventStream.Decode.{start, header_loop-put_headers, decode_frame-append}

length-put_u32 : (n : ℕ) → length (put_u32 n) ≡ 4
unfolding put_u32
length-put_u32 n = refl

three_headers : (event_type : List ℕ) → 3 ≤ length (put_headers event_type)
unfolding put_headers put_header
three_headers event_type = omega arith

header_loop-own_length :
    (event_type : List ℕ)
    → length event_type < 65536
    → is_utf8 event_type ≡ true
    → header_loop (length (put_headers event_type)) start (put_headers event_type)
      ≡ some (record { event_type = some event_type; message_type = some event_text })
header_loop-own_length event_type small utf8 =
    let least = three_headers event_type in
    let fuel : length (put_headers event_type)
        ≡ suc (suc (suc (length (put_headers event_type) - 3))) =
      omega arith in
    ap (λ n. header_loop n start (put_headers event_type)) fuel
    ∙ header_loop-put_headers (length (put_headers event_type) - 3) event_type small utf8

-- A frame's length, as `encode_event` counts it.
abbrev total : List ℕ → List ℕ → ℕ
total event_type payload = prelude_len + length (put_headers event_type) + length payload + 4

module _ (crc32 : List ℕ → ℕ) where
  abbrev lengths : List ℕ → List ℕ → List ℕ
  lengths event_type payload =
      put_u32 (total event_type payload) ++ put_u32 (length (put_headers event_type))

  abbrev body : List ℕ → List ℕ → List ℕ
  body event_type payload =
      (lengths event_type payload ++ put_u32 (crc32 (lengths event_type payload)))
      ++ (put_headers event_type ++ payload)

  encode_event-parts :
      (event_type payload : List ℕ)
      → encode_event crc32 event_type payload
        ≡ body event_type payload ++ put_u32 (crc32 (body event_type payload))
  unfolding encode_event put_prelude
  encode_event-parts event_type payload = refl

  length-encode_event :
      (event_type payload : List ℕ)
      → length (encode_event crc32 event_type payload) ≡ total event_type payload
  length-encode_event event_type payload =
      let ls = lengths event_type payload in
      let sum = put_u32 (crc32 ls) in
      let parts = ap (λ (l : List ℕ). length l) (encode_event-parts event_type payload) in
      let headers = put_headers event_type in
      omega (
        arith,
        parts,
        length-append (body event_type payload) (put_u32 (crc32 (body event_type payload))),
        length-append (ls ++ sum) (headers ++ payload),
        length-append ls sum,
        length-append headers payload,
        length-append (put_u32 (total event_type payload)) (put_u32 (length headers)),
        length-put_u32 (crc32 (body event_type payload)),
        length-put_u32 (crc32 ls),
        length-put_u32 (total event_type payload),
        length-put_u32 (length headers),
      )

  number_at-encode_event :
      (event_type payload rest : List ℕ)
      → total event_type payload ≤ max_frame
      → number_at 0 4 (encode_event crc32 event_type payload ++ rest) ≡ total event_type payload
  unfolding number_at slice
  number_at-encode_event event_type payload rest room =
      let ls = lengths event_type payload in
      let sum = put_u32 (crc32 ls) in
      let end = put_u32 (crc32 (body event_type payload)) in
      let headers = put_headers event_type in
      let inner = put_u32 (length headers) in
      let size = put_u32 (total event_type payload) in
      let later = inner ++ (sum ++ ((headers ++ payload) ++ (end ++ rest))) in
      let parts : encode_event crc32 event_type payload ++ rest ≡ size ++ later =
        ap (λ t. t ++ rest) (encode_event-parts event_type payload)
        ∙ append_assoc (body event_type payload) end rest
        ∙ append_assoc (ls ++ sum) (headers ++ payload) (end ++ rest)
        ∙ append_assoc ls sum ((headers ++ payload) ++ (end ++ rest))
        ∙ append_assoc size inner (sum ++ ((headers ++ payload) ++ (end ++ rest))) in
      ap (be_bytes 0) (
        slice-append (encode_event crc32 event_type payload ++ rest) [] size later 0 4 parts refl
          (sym (length-put_u32 (total event_type payload))))
      ∙ be_bytes-put_u32 (total event_type payload) (omega arith)

  -- A frame that fits: its event type a text of less than 2^16 bytes, and the frame within the bound.
  abbrev pub Fits : List ℕ → List ℕ → Type 0
  Fits event_type payload =
      (length event_type < 65536)
      × (is_utf8 event_type ≡ true)
      × (length (encode_event crc32 event_type payload) ≤ max_frame)

  module _ (lossy : List ℕ → List ℕ) where
    decode_frame-encode_event :
        (event_type payload : List ℕ)
        → Fits event_type payload
        → ((bytes : List ℕ) → crc32 bytes < 4294967296)
        → lossy payload ≡ payload
        → decode_frame crc32 lossy (encode_event crc32 event_type payload)
          ≡ some (record { event = some event_type; payload = payload })
    unfolding event_of is_exception same_bytes
    decode_frame-encode_event event_type payload (short, utf8, room) word same =
        let headers = put_headers event_type in
        let size = put_u32 (total event_type payload) in
        let inner = put_u32 (length headers) in
        let ls = lengths event_type payload in
        let sum = put_u32 (crc32 ls) in
        let end = put_u32 (crc32 (body event_type payload)) in
        let all = length-encode_event event_type payload in
        ap (decode_frame crc32 lossy) (encode_event-parts event_type payload)
        ∙ decode_frame-append crc32 lossy size inner sum headers payload end
            (record { event_type = some event_type; message_type = some event_text })
            (length-put_u32 (total event_type payload)) (length-put_u32 (length headers))
            (length-put_u32 (crc32 ls)) (length-put_u32 (crc32 (body event_type payload)))
            (be_bytes-put_u32 (length headers) (omega arith))
            (be_bytes-put_u32 (crc32 ls) (word ls))
            (be_bytes-put_u32 (crc32 (body event_type payload)) (word (body event_type payload)))
            (header_loop-own_length event_type short utf8)
        ∙ ap (λ (p : List ℕ). some (record { event = some event_type; payload = p })) same

    clean-encode_event :
        (event_type payload rest : List ℕ)
        → total event_type payload ≤ max_frame
        → is_corrupt (encode_event crc32 event_type payload ++ rest) ≡ false
    unfolding is_corrupt
    clean-encode_event event_type payload rest room =
        let frame = encode_event crc32 event_type payload in
        let declared = number_at-encode_event event_type payload rest room in
        ground (arith, declared, room)

    -- A frame that `encode_event` writes is read back as its event, whatever bytes follow it: a frame that
    -- fits, a checksum of 32 bits, and a payload that the lossy reading leaves as it is.
    pub push-encode_event :
        (event_type payload rest : List ℕ)
        → Fits event_type payload
        → ((bytes : List ℕ) → crc32 bytes < 4294967296)
        → lossy payload ≡ payload
        → push crc32 lossy [] (encode_event crc32 event_type payload ++ rest)
          ≡ add
              (some (record { event = some event_type; payload = payload }))
              (push crc32 lossy [] rest)
    unfolding push
    push-encode_event event_type payload rest (short, utf8, room) word same =
        let frame = encode_event crc32 event_type payload in
        let event : SseEvent = record { event = some event_type; payload = payload } in
        let all = length-encode_event event_type payload in
        let stream = frame ++ rest in
        let both = length-append frame rest in
        let declared = number_at-encode_event event_type payload rest (omega arith) in
        let decoded = decode_frame-encode_event event_type payload (short, utf8, room) word same in
        let found : cut_frame crc32 lossy stream ≡ some (length frame, some event) =
          eq-cut_frame crc32 lossy stream (omega arith)
            (clean-encode_event event_type payload rest (omega arith)) (omega arith)
          ∙ ap (λ n. some (n, decode_frame crc32 lossy (take n stream))) (declared ∙ sym all)
          ∙ ap (λ (f : List ℕ). some (length frame, decode_frame crc32 lossy f))
              (take-append frame rest)
          ∙ ap (λ e. some (length frame, e)) decoded in
        let fuel = length stream - 1 in
        let one_more : length stream ≡ suc fuel = omega arith in
        ap (λ n. push_loop crc32 lossy n stream) one_more
        ∙ push_loop_step crc32 lossy fuel stream (length frame) (some event) found
        ∙ ap (λ (l : List ℕ). add (some event) (push_loop crc32 lossy fuel l))
            (drop-append frame rest)
        ∙ ap (add (some event)) (
            push_loop-frames crc32 lossy fuel fuel rest (omega arith) (omega arith)
            ∙ sym
                (push_loop-frames crc32 lossy (length rest) fuel rest (omega arith) (omega arith)))
