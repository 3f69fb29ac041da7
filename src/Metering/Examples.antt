-- ===== src/Metering/Examples.antt =====
-- The metering body of crates/router-server/src/usage.rs on small responses.
use rapidrouter.Prelude.{
  ℕ, ◌≡◌, refl, Bool, true, false, none, some, List, [], ◌∷◌, arith, ◌==◌, is_utf8,
}
use rapidrouter.Metering.{
  Json, no_usage, open_ai, MeteredBody, bytes, trailers, ended, dropped, failed, stream_usage,
  poll_all, text_lines,
}
use rapidrouter.Metering.Once.{poll_all-completes, poll_all-cut_tail, usage_of}

-- Every body that begins with a brace is an object whose fields all hold 7.
abbrev sevens : Json
sevens = record {
  Value = Bool;
  parse = λ body. elim body [
    | [] ↦ none
    | b ∷ rest ↦ (elim (b == 123) [ true ↦ some true | false ↦ none ])
  ];
  field = λ v name. v;
  is_object = λ v. v;
  as_u64 = λ v. some 7;
}

-- The first bytes of the examples are texts.
abbrev shown : List ℕ → List ℕ
shown text = text

abbrev body : MeteredBody
body = record {
  hooked = true;
  stream = true;
  dialect = open_ai;
  status = 200;
  tail = [];
  captured = [];
  capture_limit = 4;
}

-- `data: {usage`, cut into three frames.
abbrev event : List ℕ
event = 100 ∷ 97 ∷ 116 ∷ 97 ∷ 58 ∷ 32 ∷ 123 ∷ 117 ∷ 115 ∷ 97 ∷ 103 ∷ 101 ∷ []

poll_all-counted :
    (poll_all sevens shown 100 body (
      bytes (100 ∷ 97 ∷ [])
      ∷ trailers
      ∷ bytes (116 ∷ 97 ∷ 58 ∷ 32 ∷ 123 ∷ 117 ∷ 115 ∷ [])
      ∷ bytes (97 ∷ 103 ∷ 101 ∷ [])
      ∷ ended
      ∷ dropped
      ∷ [])).1
    ≡ (record {
      status = 200;
      usage = record { input = 7; output = 7; cached = 7 };
      output = 100 ∷ 97 ∷ 116 ∷ 97 ∷ [];
    }
        ∷ [])
unfolding poll_all stream_usage text_lines is_utf8
poll_all-counted = refl

lines_read : text_lines (97 ∷ 13 ∷ 10 ∷ 10 ∷ 98 ∷ 13 ∷ []) ≡ ((97 ∷ []) ∷ [] ∷ (98 ∷ 13 ∷ []) ∷ [])
unfolding text_lines
lines_read = refl

poll_all-completes_example :
    (poll_all sevens shown 6 body (bytes event ∷ failed ∷ bytes event ∷ dropped ∷ [])).1 ≡ (
      record {
        status = 200;
        usage = usage_of sevens shown 6 body event;
        output = 100 ∷ 97 ∷ 116 ∷ 97 ∷ [];
      }
      ∷ [])
poll_all-completes_example =
    poll_all-completes sevens shown 6 body (bytes event ∷ failed ∷ bytes event ∷ []) refl refl refl

-- The tail of fourteen bytes begins with the second byte of a character, and the usage of the event after
-- it is lost.
poll_all-cut_tail_example :
    (poll_all sevens shown 14 body (bytes (195 ∷ 169 ∷ 10 ∷ event) ∷ ended ∷ dropped ∷ [])).1
    ≡ (record { status = 200; usage = no_usage; output = 195 ∷ 169 ∷ 10 ∷ 100 ∷ [] } ∷ [])
poll_all-cut_tail_example =
    poll_all-cut_tail sevens shown 14 body (bytes (195 ∷ 169 ∷ 10 ∷ event) ∷ ended ∷ []) (195 ∷ [])
      (10 ∷ event) 169 refl refl refl refl refl refl (omega arith) (omega arith)
