-- ===== src/Metering.antt =====
-- crates/router-server/src/usage.rs: the token counts of a response, the body that counts them while it
-- streams, and what its completion charges. Text is its bytes. JSON is that of serde_json, and the lossy
-- reading of UTF-8 (`String::from_utf8_lossy`) that of the standard library; both are arguments.
pub mod Charge
pub mod Tail
pub mod Once
mod Examples
use Prim.Native.String.{String}
use rapidrouter.Prelude.{
  ℕ, ◌+◌, ◌-◌, Bool, true, false, not, ◌&&◌, ◌||◌, Option, none, some, List, [], ◌∷◌, ◌++◌, length,
  take, drop, max, min, leb, ltb, ◌==◌, if◌then◌else◌, add64, is_utf8, is_empty,
}

pub record TokenUsage : Type 0 where
  pub input : ℕ
  pub output : ℕ
  pub cached : ℕ

abbrev pub no_usage : TokenUsage
no_usage = record { input = 0; output = 0; cached = 0 }

unfoldable pub total_tokens : TokenUsage → ℕ
total_tokens t = add64 t.input t.output

-- `saturating_sub` is the truncated `-`.
unfoldable pub billable : TokenUsage → ℕ
billable t = add64 (t.input - t.cached) t.output

unfoldable pub merge_max : TokenUsage → TokenUsage → TokenUsage
merge_max t other = record {
  input = max t.input other.input;
  output = max t.output other.output;
  cached = max t.cached other.cached;
}

-- What is used of serde_json: `v[name]` on a missing name is null, which is no object and no number.
pub record Json : Type 1 where
  pub Value : Type 0
  pub parse : List ℕ → Option Value
  pub field : Value → String → Value
  pub is_object : Value → Bool
  pub as_u64 : Value → Option ℕ

pub data Dialect : Type 0 where
  open_ai codex_responses anthropic gemini bedrock : Dialect

-- `as_u64().unwrap_or(0)`.
abbrev or_zero : Option ℕ → ℕ
or_zero none = 0
or_zero (some n) = n

-- The bytes of "usage" and "data:".
abbrev usage_marker : List ℕ
usage_marker = 117 ∷ 115 ∷ 97 ∷ 103 ∷ 101 ∷ []

abbrev metadata_marker : List ℕ
metadata_marker = usage_marker ++ (77 ∷ 101 ∷ 116 ∷ 97 ∷ 100 ∷ 97 ∷ 116 ∷ 97 ∷ [])

abbrev data_prefix : List ℕ
data_prefix = 100 ∷ 97 ∷ 116 ∷ 97 ∷ 58 ∷ []

strip_bytes : List ℕ → List ℕ → Option (List ℕ)
strip_bytes [] bytes = some bytes
strip_bytes (c ∷ wanted) [] = none
strip_bytes (c ∷ wanted) (b ∷ bytes) =
    let rest = strip_bytes wanted bytes in if b == c then rest else none

abbrev is_found : Option (List ℕ) → Bool
is_found none = false
is_found (some rest) = true

-- A text within another.
has_bytes : List ℕ → List ℕ → Bool
unfolding strip_bytes
has_bytes wanted [] = is_empty wanted
has_bytes wanted (b ∷ rest) =
    let later = has_bytes wanted rest in
    if is_found (strip_bytes wanted (b ∷ rest)) then true else later

-- `str::lines`: the parts between line feeds, each with a carriage return before it, if there is one,
-- and without an empty last part.
add_byte : ℕ → List (List ℕ) → List (List ℕ)
add_byte b [] = (b ∷ []) ∷ []
add_byte b (line ∷ rest) = (b ∷ line) ∷ rest

unfoldable pub text_lines : List ℕ → List (List ℕ)
unfolding add_byte
text_lines [] = []
text_lines (b ∷ []) = if b == 10 then [] ∷ [] else (b ∷ []) ∷ []
text_lines (b ∷ c ∷ rest) =
    let after_two = text_lines rest in
    let after_one = text_lines (c ∷ rest) in
    if b == 13 && c == 10
    then [] ∷ after_two
    else if b == 10
    then [] ∷ after_one
    else add_byte b after_one

-- The white space of Unicode at the head of a text of UTF-8, by the number of its bytes.
one_blank : ℕ → Bool
one_blank b = (leb 9 b && leb b 13) || b == 32

two_blank : ℕ → ℕ → Bool
two_blank b c = b == 194 && (c == 133 || c == 160)

three_blank : ℕ → ℕ → ℕ → Bool
three_blank b c d =
    (b == 225 && (c == 154 && d == 128))
    || (b == 226
        && ((c == 128 && ((leb 128 d && leb d 138) || (d == 168 || (d == 169 || d == 175))))
            || (c == 129 && d == 159)))
    || (b == 227 && (c == 128 && d == 128))

trim_head : List ℕ → List ℕ
unfolding one_blank two_blank three_blank
trim_head [] = []
trim_head (b ∷ []) = if one_blank b then [] else b ∷ []
trim_head (b ∷ c ∷ []) =
    let after_one = trim_head (c ∷ []) in
    if one_blank b then after_one else if two_blank b c then [] else b ∷ c ∷ []
trim_head (b ∷ c ∷ d ∷ rest) =
    let after_one = trim_head (c ∷ d ∷ rest) in
    let after_two = trim_head (d ∷ rest) in
    let after_three = trim_head rest in
    if one_blank b
    then after_one
    else if two_blank b c
    then after_two
    else if three_blank b c d
    then after_three
    else b ∷ c ∷ d ∷ rest

module _ (j : Json) where
  number : j.Value → ℕ
  number v = or_zero (j.as_u64 v)

  -- `a.max(b)` of two fields.
  either : j.Value → String → String → ℕ
  unfolding number
  either v a b = max (number (j.field v a)) (number (j.field v b))

  nested : j.Value → String → String → j.Value
  nested v a b = j.field (j.field v a) b

  -- The usage object, flat or within another.
  usage_object : j.Value → String → j.Value
  unfolding nested
  usage_object v outer =
      if j.is_object (j.field v "usage") then j.field v "usage" else nested v outer "usage"

  read_open_ai : j.Value → TokenUsage
  unfolding either nested number
  read_open_ai u = record {
    input = either u "prompt_tokens" "input_tokens";
    output = either u "completion_tokens" "output_tokens";
    cached =
        max (number (nested u "prompt_tokens_details" "cached_tokens"))
          (number (nested u "input_tokens_details" "cached_tokens"));
  }

  read_plain : j.Value → String → String → String → TokenUsage
  unfolding number
  read_plain u input output cached = record {
    input = number (j.field u input);
    output = number (j.field u output);
    cached = number (j.field u cached);
  }

  unfoldable pub usage_from_value : Dialect → j.Value → TokenUsage
  unfolding read_open_ai read_plain usage_object
  usage_from_value open_ai v = read_open_ai (usage_object v "response")
  usage_from_value codex_responses v = read_open_ai (usage_object v "response")
  usage_from_value anthropic v =
      read_plain (usage_object v "message") "input_tokens" "output_tokens" "cache_read_input_tokens"
  usage_from_value gemini v =
      read_plain (j.field v "usageMetadata") "promptTokenCount" "candidatesTokenCount"
        "cachedContentTokenCount"
  usage_from_value bedrock v =
      read_plain (j.field v "usage") "inputTokens" "outputTokens" "cacheReadInputTokens"

  -- What a text that may hold usage says, if it is JSON.
  usage_in : Dialect → List ℕ → Option TokenUsage
  unfolding has_bytes usage_from_value
  usage_in dialect body =
      if not (has_bytes usage_marker body) && not (has_bytes metadata_marker body)
      then none
      else elim (j.parse body) [ none ↦ none | some v ↦ some (usage_from_value dialect v) ]

  -- A complete body.
  unfoldable pub extract_sync : Dialect → List ℕ → TokenUsage
  unfolding usage_in
  extract_sync dialect body = elim (usage_in dialect body) [ none ↦ no_usage | some t ↦ t ]

  -- `StreamUsageScanner`: one event.
  unfoldable pub on_event_data : Dialect → TokenUsage → List ℕ → TokenUsage
  unfolding usage_in merge_max
  on_event_data dialect t event = elim (usage_in dialect event) [
    | none ↦ t
    | some other ↦ merge_max t other
  ]

  unfoldable pub scan_lines : Dialect → TokenUsage → List (List ℕ) → TokenUsage
  unfolding on_event_data strip_bytes trim_head
  scan_lines dialect t [] = t
  scan_lines dialect t (line ∷ rest) = elim (strip_bytes data_prefix line) [
    | none ↦ scan_lines dialect t rest
    | some event ↦ scan_lines dialect (on_event_data dialect t (trim_head event)) rest
  ]

  -- The tail of a stream, which is read as a text only if it is one.
  unfoldable pub stream_usage : Dialect → List ℕ → TokenUsage
  unfolding scan_lines text_lines
  stream_usage dialect tail =
      if is_utf8 tail then scan_lines dialect no_usage (text_lines tail) else no_usage

-- `USAGE_TAIL_CAP`.
abbrev pub usage_tail_cap : ℕ
usage_tail_cap = 262144

-- `MeteredBody`, with what its hook and its parts hold still; the hook is there until it is taken.
pub record MeteredBody : Type 0 where
  pub hooked : Bool
  pub stream : Bool
  pub dialect : Dialect
  pub status : ℕ
  pub tail : List ℕ
  pub captured : List ℕ
  pub capture_limit : ℕ

-- The bound on the tail is an argument, `usage_tail_cap` in the source.
unfoldable pub observe : ℕ → MeteredBody → List ℕ → MeteredBody
observe cap b chunk = record b {
  captured =
      if ltb (length b.captured) b.capture_limit
      then b.captured ++ take (min (b.capture_limit - length b.captured) (length chunk)) chunk
      else b.captured;
  tail =
      if leb cap (length chunk)
      then drop (length chunk - cap) chunk
      else drop (length b.tail + length chunk - cap) b.tail ++ chunk;
}

-- What the hook is completed with.
pub record Completion : Type 0 where
  pub status : ℕ
  pub usage : TokenUsage
  pub output : List ℕ

-- What reaches the body: a frame of bytes or one of trailers, an error, the end, a poll too early, and the
-- drop.
pub data Poll : Type 0 where
  bytes : List ℕ → Poll
  trailers failed ended pending dropped : Poll

module _ (j : Json) (lossy : List ℕ → List ℕ) where
  unfoldable pub completion_of : MeteredBody → Completion
  unfolding stream_usage extract_sync
  completion_of b = record {
    status = b.status;
    usage = if b.stream then stream_usage j b.dialect b.tail else extract_sync j b.dialect b.tail;
    output = lossy b.captured;
  }

  -- `hook.take()`; the captured bytes are taken with it.
  unfoldable pub complete : MeteredBody → MeteredBody × List Completion
  unfolding completion_of
  complete b =
      if b.hooked
      then (record b { hooked = false; captured = [] }, completion_of b ∷ [])
      else (b, [])

  unfoldable pub poll : ℕ → MeteredBody → Poll → MeteredBody × List Completion
  unfolding complete observe
  poll cap b (bytes chunk) = (observe cap b chunk, [])
  poll cap b trailers = (b, [])
  poll cap b pending = (b, [])
  poll cap b failed = complete b
  poll cap b ended = complete b
  poll cap b dropped = complete b

  unfoldable pub poll_all : ℕ → MeteredBody → List Poll → MeteredBody × List Completion
  unfolding poll
  poll_all cap b [] = (b, [])
  poll_all cap b (p ∷ rest) =
      let (b', first) = poll cap b p in
      let (last, later) = poll_all cap b' rest in (last, first ++ later)
