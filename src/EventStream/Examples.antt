-- ===== src/EventStream/Examples.antt =====
-- Two frames with a toy checksum, and the theorems about crates/router-core/src/eventstream.rs there.
use rapidrouter.Prelude.{
  ℕ, ◌%◌, ◌≡◌, refl, none, some, List, [], ◌∷◌, ◌++◌, length, drop, take, arith, is_utf8,
}
use rapidrouter.Framing.{frames}
use rapidrouter.Sse.Chunks.{joined}
use rapidrouter.EventStream.{
  put_headers, put_prelude, put_header, put_u32, encode_event, push, add, number_at, decode_frame,
}
use rapidrouter.EventStream.Frames.{push_all, is_corrupt, cut_frame, push_all-joined_clean}
use rapidrouter.EventStream.RoundTrip.{push-encode_event}

abbrev checksum : List ℕ → ℕ
checksum bytes = length bytes % 65536

abbrev as_it_is : List ℕ → List ℕ
as_it_is bytes = bytes

-- A frame with no header and no payload.
abbrev frame : List ℕ
frame = 0 ∷ 0 ∷ 0 ∷ 16 ∷ 0 ∷ 0 ∷ 0 ∷ 0 ∷ 0 ∷ 0 ∷ 0 ∷ 8 ∷ 0 ∷ 0 ∷ 0 ∷ 12 ∷ []

read_back :
    push checksum as_it_is [] (frame ++ (1 ∷ []))
    ≡ (1 ∷ [], record { event = none; payload = [] } ∷ [])
unfolding push number_at decode_frame
read_back = refl

-- A frame whose declared length is out of range drops the buffer.
too_short :
    push checksum as_it_is [] (0 ∷ 0 ∷ 0 ∷ 15 ∷ 0 ∷ 0 ∷ 0 ∷ 0 ∷ 0 ∷ 0 ∷ 0 ∷ 0 ∷ 1 ∷ []) ≡ ([], [])
unfolding push number_at
too_short = refl

push_all-joined_clean_example :
    push_all checksum as_it_is [] (take 7 frame ∷ drop 7 frame ∷ (1 ∷ []) ∷ [])
    ≡ push checksum as_it_is [] (joined (take 7 frame ∷ drop 7 frame ∷ (1 ∷ []) ∷ []))
unfolding is_corrupt cut_frame frames number_at decode_frame
push_all-joined_clean_example =
    push_all-joined_clean checksum as_it_is [] (take 7 frame) (drop 7 frame ∷ (1 ∷ []) ∷ []) refl

push-encode_event_example :
    push checksum as_it_is [] (encode_event checksum (97 ∷ []) (123 ∷ 125 ∷ []) ++ frame)
    ≡ add
        (some (record { event = some (97 ∷ []); payload = 123 ∷ 125 ∷ [] }))
        (push checksum as_it_is [] frame)
unfolding is_utf8 encode_event put_prelude put_headers put_header put_u32
push-encode_event_example =
    push-encode_event checksum as_it_is (97 ∷ []) (123 ∷ 125 ∷ []) frame
      (omega arith, refl, omega arith) (λ bytes. omega arith) refl
