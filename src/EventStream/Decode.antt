-- ===== src/EventStream/Decode.antt =====
-- A frame given by its parts, and the headers in it: crates/router-core/src/eventstream.rs.
use rapidrouter.Prelude.{
  ℕ, suc, ◌+◌, ◌-◌, ◌%◌, ◌<◌, ◌≡◌, refl, sym, ap, ◌∙◌, true, none, some, List, [], ◌++◌,
  append_assoc, append-nil, length, take, length-append, arith, is_utf8, same_bytes,
}
use rapidrouter.EventStream.{
  be_bytes, slice, number_at, put_header, put_headers, Headers, read_header, note, header_loop,
  event_type_name, message_type_name, content_type_name, json_text, event_text, decode_frame,
  event_of,
}
use rapidrouter.EventStream.Slices.{read_header-put_header, slice-append}

header_loop_step :
    (fuel : ℕ) (h : Headers) (name value tail : List ℕ)
    → length name < 256
    → length value < 65536
    → is_utf8 name ≡ true
    → is_utf8 value ≡ true
    → header_loop (suc fuel) h (put_header name value ++ tail)
      ≡ header_loop fuel (note h name value) tail
unfolding header_loop put_header
header_loop_step fuel h name value tail short small utf8 utf8' =
    let back = read_header-put_header h name value tail short small utf8 utf8' in
    let same : length name % 256 ≡ length name = omega arith in
    rw (ap (λ n. read_header h n (put_header name value ++ tail)) same ∙ back, header_loop) refl

abbrev pub start : Headers
start = record { event_type = none; message_type = none }

pub header_loop-put_headers :
    (fuel : ℕ) (event_type : List ℕ)
    → length event_type < 65536
    → is_utf8 event_type ≡ true
    → header_loop (suc (suc (suc fuel))) start (put_headers event_type)
      ≡ some (record { event_type = some event_type; message_type = some event_text })
unfolding put_headers note same_bytes is_utf8 header_loop
header_loop-put_headers fuel event_type small utf8 =
    let second = put_header message_type_name event_text in
    let third = put_header content_type_name json_text in
    let after : Headers = record { event_type = some event_type; message_type = some event_text } in
    header_loop_step (suc (suc fuel)) start event_type_name event_type (second ++ third)
      (omega arith) small refl utf8
    ∙ header_loop_step (suc fuel) (record start { event_type = some event_type }) message_type_name
        event_text third (omega arith) (omega arith) refl refl
    ∙ ap (header_loop (suc fuel) after) (sym (append-nil third))
    ∙ header_loop_step fuel after content_type_name json_text [] (omega arith) (omega arith) refl
        refl

module _ (crc32 : List ℕ → ℕ) (lossy : List ℕ → List ℕ) where
  decode_frame-parts :
      (frame lengths headers payload body : List ℕ) (h : Headers)
      → take 8 frame ≡ lengths
      → number_at 8 4 frame ≡ crc32 lengths
      → number_at 4 4 frame ≡ length headers
      → length frame ≡ 12 + length headers + length payload + 4
      → take (length frame - 4) frame ≡ body
      → number_at (length frame - 4) 4 frame ≡ crc32 body
      → slice 12 (length headers) frame ≡ headers
      → slice (12 + length headers) (length payload) frame ≡ payload
      → header_loop (length headers) start headers ≡ some h
      → decode_frame crc32 lossy frame ≡ event_of crc32 lossy frame payload (some h)
  unfolding decode_frame
  decode_frame-parts frame lengths headers payload body h front sum lens size rest total inner text
        loop =
      let left : length frame - 4 - (12 + length headers) ≡ length payload = omega arith in
      ground (arith, front, sum, lens, size, rest, total, inner, text, loop, left)

  -- A frame given by its parts, as `encode_event` puts them together.
  pub decode_frame-append :
      (size inner sum headers payload end : List ℕ) (h : Headers)
      → length size ≡ 4
      → length inner ≡ 4
      → length sum ≡ 4
      → length end ≡ 4
      → be_bytes 0 inner ≡ length headers
      → be_bytes 0 sum ≡ crc32 (size ++ inner)
      → be_bytes 0 end ≡ crc32 (((size ++ inner) ++ sum) ++ (headers ++ payload))
      → header_loop (length headers) start headers ≡ some h
      → decode_frame crc32 lossy ((((size ++ inner) ++ sum) ++ (headers ++ payload)) ++ end)
        ≡ event_of crc32 lossy
            ((((size ++ inner) ++ sum) ++ (headers ++ payload)) ++ end)
            payload
            (some h)
  unfolding number_at slice
  decode_frame-append size inner sum headers payload end h size_four inner_four sum_four end_four
        counted summed ended loop =
      let lengths = size ++ inner in
      let front = lengths ++ sum in
      let body = front ++ (headers ++ payload) in
      let frame = body ++ end in
      let eight = length-append size inner in
      let twelve = length-append lengths sum in
      let after = length-append headers payload in
      let all = length-append front (headers ++ payload) in
      let whole = length-append body end in
      let from_front : frame ≡ front ++ (headers ++ (payload ++ end)) =
        append_assoc front (headers ++ payload) end
        ∙ ap (λ t. front ++ t) (append_assoc headers payload end) in
      let from_lengths : frame ≡ lengths ++ (sum ++ (headers ++ (payload ++ end))) =
        from_front ∙ append_assoc lengths sum (headers ++ (payload ++ end)) in
      let from_size : frame ≡ size ++ (inner ++ (sum ++ (headers ++ (payload ++ end)))) =
        from_lengths ∙ append_assoc size inner (sum ++ (headers ++ (payload ++ end))) in
      let from_payload : frame ≡ (front ++ headers) ++ (payload ++ end) =
        from_front ∙ sym (append_assoc front headers (payload ++ end)) in
      let before = length-append front headers in
      decode_frame-parts frame lengths headers payload body h
        (slice-append frame [] lengths (sum ++ (headers ++ (payload ++ end))) 0 8 from_lengths refl
          (omega arith))
        (ap (be_bytes 0) (
            slice-append frame lengths sum (headers ++ (payload ++ end)) 8 4 from_lengths
              (omega arith) (omega arith))
          ∙ summed)
        (ap (be_bytes 0) (
            slice-append frame size inner (sum ++ (headers ++ (payload ++ end))) 4 4 from_size
              (omega arith) (omega arith))
          ∙ counted)
        (omega arith) (slice-append frame [] body end 0 (length frame - 4) refl refl (omega arith))
        (ap (be_bytes 0) (
            slice-append frame body end [] (length frame - 4) 4
              (ap (λ t. body ++ t) (sym (append-nil end))) (omega arith) (omega arith))
          ∙ ended)
        (slice-append frame front headers (payload ++ end) 12 (length headers) from_front
          (omega arith) refl)
        (slice-append frame (front ++ headers) payload end (12 + length headers) (length payload)
          from_payload (omega arith) refl)
        loop
