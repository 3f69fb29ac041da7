-- ===== src/Sse/Examples.antt =====
-- Streams of bytes, and the theorems about crates/router-core/src/sse.rs there.
use rapidrouter.Prelude.{
  ℕ, ◌≡◌, refl, none, some, List, [], ◌∷◌, ◌++◌, is_utf8, split_byte, strip_first, strip_last,
  same_bytes, starts_with, join_bytes, arith,
}
use rapidrouter.Sse.{new_parser, push, format_event}
use rapidrouter.Sse.Chunks.{push_all, joined, push_all-joined}
use rapidrouter.Sse.RoundTrip.{push-format_event}

-- "data: a\n\n" and a comment.
abbrev stream : List ℕ
stream = 100 ∷ 97 ∷ 116 ∷ 97 ∷ 58 ∷ 32 ∷ 97 ∷ 10 ∷ 10 ∷ 58 ∷ 10 ∷ 13 ∷ []

read_once :
    push new_parser stream
    ≡ (record { buffer = 58 ∷ 10 ∷ 13 ∷ [] }, record { event = none; payload = 97 ∷ [] } ∷ [])
unfolding new_parser push is_utf8 split_byte strip_first strip_last same_bytes starts_with
    join_bytes
read_once = refl

-- A lone carriage return ends a line for the search of the boundary, and not for the lines.
lone_carriage :
    (push new_parser
      (100 ∷ 97 ∷ 116 ∷ 97 ∷ 58 ∷ 97 ∷ 13 ∷ 100 ∷ 97 ∷ 116 ∷ 97 ∷ 58 ∷ 98 ∷ 10 ∷ 10 ∷ [])).1
    ≡ record { event = none; payload = 97 ∷ 13 ∷ 100 ∷ 97 ∷ 116 ∷ 97 ∷ 58 ∷ 98 ∷ [] } ∷ []
unfolding new_parser push is_utf8 split_byte strip_first strip_last same_bytes starts_with
    join_bytes
lone_carriage = refl

push_all-joined_example :
    push_all new_parser ((100 ∷ 97 ∷ []) ∷ (116 ∷ 97 ∷ 58 ∷ []) ∷ (97 ∷ 10 ∷ []) ∷ (10 ∷ []) ∷ [])
    ≡ push new_parser
        (joined ((100 ∷ 97 ∷ []) ∷ (116 ∷ 97 ∷ 58 ∷ []) ∷ (97 ∷ 10 ∷ []) ∷ (10 ∷ []) ∷ []))
push_all-joined_example =
    push_all-joined new_parser (100 ∷ 97 ∷ [])
      ((116 ∷ 97 ∷ 58 ∷ []) ∷ (97 ∷ 10 ∷ []) ∷ (10 ∷ []) ∷ [])

push-format_event_example :
    push new_parser (format_event (some (97 ∷ [])) (98 ∷ 99 ∷ []) ++ stream) ≡ (
      (push new_parser stream).0,
      record { event = some (97 ∷ []); payload = 98 ∷ 99 ∷ [] } ∷ (push new_parser stream).1,
    )
unfolding is_utf8
push-format_event_example =
    push-format_event (some (97 ∷ [])) (98 ∷ 99 ∷ []) stream (omega arith, refl) (omega arith, refl)
