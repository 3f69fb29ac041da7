-- ===== src/Vkey/Token.antt =====
-- crates/router-core/src/vkey.rs, `parse` and `decode_hash`: the shape of a presented key and of a stored
-- hash. A text is read by its characters; where the source counts bytes, one that is not ASCII is
-- refused both by the source and here.
use Prim.Native.String.{String, ◌++◌}
use Prim.Native.String.append
use Prim.Native.Char.{Char}
use rapidrouter.Prelude.{
  ℕ, ◌+◌, ◌-◌, ◌*◌, ◌≡◌, Bool, true, false, not, ◌&&◌, ◌||◌, Option, none, some, List, [], ◌∷◌,
  length, all_of, leb, ◌==◌, if◌then◌else◌, split_once, split_once-join, strip_prefix,
  strip_prefix-append, codes, no_text, Lacks, arith,
}

-- The code point of `-`.
abbrev pub dash : ℕ
dash = 45

unfoldable pub is_hex_digit : ℕ → Bool
is_hex_digit c = (leb 48 c && leb c 57) || (leb 65 c && leb c 70) || (leb 97 c && leb c 102)

checked : Option (String × String) → Option (String × String)
unfolding is_hex_digit
checked none = none
checked (some (id, secret)) =
    if not (length (codes id) == 6) || not (all_of is_hex_digit (codes id)) || no_text secret
    then none
    else some (id, secret)

split_rest : Option String → Option (String × String)
unfolding checked
split_rest none = none
split_rest (some rest) = checked (split_once dash rest)

unfoldable pub parse : String → Option (String × String)
unfolding split_rest
parse token = split_rest (strip_prefix "ck-" token)

-- `GeneratedKey::full`.
unfoldable pub full_key : String → String → String
full_key id secret = "ck-" ++ (id ++ ("-" ++ secret))

hex_value : ℕ → Option ℕ
hex_value c =
    if leb 48 c && leb c 57
    then some (c - 48)
    else if leb 65 c && leb c 70
    then some (c - 55)
    else if leb 97 c && leb c 102
    then some (c - 87)
    else none

join_digits : Option ℕ → Option ℕ → Option ℕ
join_digits (some a) (some b) = some (a * 16 + b)
join_digits _ _ = none

-- `u8::from_str_radix(pair, 16)`, which takes a leading `+`.
from_hex_pair : ℕ → ℕ → Option ℕ
unfolding hex_value join_digits
from_hex_pair a b = if a == 43 then hex_value b else join_digits (hex_value a) (hex_value b)

push_byte : Option ℕ → Option (List ℕ) → Option (List ℕ)
push_byte (some b) (some rest) = some (b ∷ rest)
push_byte _ _ = none

from_hex_pairs : List ℕ → Option (List ℕ)
unfolding from_hex_pair push_byte
from_hex_pairs [] = some []
from_hex_pairs (a ∷ []) = none
from_hex_pairs (a ∷ b ∷ rest) = push_byte (from_hex_pair a b) (from_hex_pairs rest)

decode_hex : Option String → Option (List ℕ)
unfolding from_hex_pairs
decode_hex none = none
decode_hex (some hex) = if length (codes hex) == 64 then from_hex_pairs (codes hex) else none

unfoldable pub decode_hash : String → Option (List ℕ)
unfolding decode_hex
decode_hash stored = decode_hex (strip_prefix "blake3:" stored)

-- What `generate` makes of an id.
abbrev pub IsId : String → Type 0
IsId id = (length (codes id) ≡ 6) × (all_of is_hex_digit (codes id) ≡ true)

Lacks-dash : (id : String) → all_of is_hex_digit (codes id) ≡ true → Lacks dash id
unfolding is_hex_digit codes
Lacks-dash String.[] h = tt
Lacks-dash (String.◌∷◌ c id) h = (ground arith, Lacks-dash id (ground arith))

-- A generated key, shown in full, is read back as its id and its secret, whatever the secret holds.
pub parse-full_key :
    (id secret : String)
    → IsId id
    → no_text secret ≡ false
    → parse (full_key id secret) ≡ some (id, secret)
unfolding parse full_key
parse-full_key id secret (six, hex) there =
    let bar : Char = "-" in
    rw
      (
        strip_prefix-append "ck-" (id ++ ("-" ++ secret)),
        append.cons bar String.[] secret,
        append.nil secret,
        split_once-join id secret bar (Lacks-dash id hex),
      )
      (ground (arith, there, six, hex))
