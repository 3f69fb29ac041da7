-- ===== src/Prelude/Bytes.antt =====
-- Texts as the bytes of their UTF-8 form, for code that works on byte slices: `str::from_utf8`,
-- `split_once` at an ASCII character, `strip_prefix`, `strip_suffix` and `join`.
use Prim.Native.Nat.{ℕ, zero, suc, ◌≤◌, ◌<◌}
use mathlib.Core.Path.{◌≡◌}
use mathlib.Core.Logic.{◌≢◌}
use mathlib.Core.Bool.{Bool, true, false, ◌&&◌}
use mathlib.Core.List.{List, [], ◌∷◌, ◌++◌}
use mathlib.Core.Option.{Option, none, some}
use native.Mathlib.Omega.{arith}
use rapidrouter.Prelude.Tests.{leb, ◌==◌, if◌then◌else◌}
use rapidrouter.Prelude.Lists.{All}

-- A byte within bounds, the bounds of the one that follows, and how many follow.
in_range : ℕ → ℕ → ℕ → Bool
in_range lo hi b = leb lo b && leb b hi

-- What a leading byte asks for: the bounds of the next byte, and the number of bytes to come.
lead : ℕ → Option (ℕ × ℕ × ℕ)
unfolding in_range
lead b =
    if leb b 127
    then some (0, 0, 0)
    else if in_range 194 223 b
    then some (128, 191, 1)
    else if b == 224
    then some (160, 191, 2)
    else if b == 237
    then some (128, 159, 2)
    else if in_range 225 239 b
    then some (128, 191, 2)
    else if b == 240
    then some (144, 191, 3)
    else if in_range 241 243 b
    then some (128, 191, 3)
    else if b == 244
    then some (128, 143, 3)
    else none

-- The bytes that are still due of a character, with the bounds of the first of them.
utf8_rest : ℕ → ℕ → ℕ → List ℕ → Bool
unfolding lead
utf8_rest zero lo hi [] = true
utf8_rest (suc due) lo hi [] = false
utf8_rest zero lo hi (b ∷ rest) = elim (lead b) [
  | none ↦ false
  | some (lo', hi', due) ↦ utf8_rest due lo' hi' rest
]
utf8_rest (suc due) lo hi (b ∷ rest) = in_range lo hi b && utf8_rest due 128 191 rest

unfoldable pub is_utf8 : List ℕ → Bool
unfolding utf8_rest
is_utf8 bytes = utf8_rest zero 0 0 bytes

unfoldable pub split_byte : ℕ → List ℕ → Option (List ℕ × List ℕ)
split_byte c [] = none
split_byte c (b ∷ rest) =
    let later = split_byte c rest in
    if b == c
    then some ([], rest)
    else elim later [ none ↦ none | some (before, after) ↦ some (b ∷ before, after) ]

-- `strip_prefix` and `starts_with` of one character, with the bytes unchanged where it is missing.
unfoldable pub strip_first : ℕ → List ℕ → List ℕ
strip_first c [] = []
strip_first c (b ∷ rest) = if b == c then rest else b ∷ rest

unfoldable pub strip_last : ℕ → List ℕ → List ℕ
strip_last c [] = []
strip_last c (b ∷ []) = if b == c then [] else b ∷ []
strip_last c (b ∷ d ∷ rest) = b ∷ strip_last c (d ∷ rest)

unfoldable pub starts_with : ℕ → List ℕ → Bool
starts_with c [] = false
starts_with c (b ∷ rest) = b == c

unfoldable pub same_bytes : List ℕ → List ℕ → Bool
same_bytes [] [] = true
same_bytes (a ∷ first) (b ∷ second) = (a == b) && same_bytes first second
same_bytes _ _ = false

unfoldable pub join_bytes : List ℕ → List (List ℕ) → List ℕ
join_bytes gap [] = []
join_bytes gap (line ∷ []) = line
join_bytes gap (line ∷ next ∷ rest) = line ++ (gap ++ join_bytes gap (next ∷ rest))

-- The bytes hold no `c`.
abbrev pub LacksByte : ℕ → List ℕ → Type 0
LacksByte c = All (λ b. b ≢ c)

pub split_byte-join :
    (c : ℕ) (before after : List ℕ)
    → LacksByte c before
    → split_byte c (before ++ (c ∷ after)) ≡ some (before, after)
unfolding split_byte
split_byte-join c [] after h = ground arith
split_byte-join c (b ∷ before) after h = ground (arith, split_byte-join c before after h.1, h.0)

-- No text begins with a byte that continues a character.
pub is_utf8-continuation : (b : ℕ) (rest : List ℕ) → 128 ≤ b → b < 192 → is_utf8 (b ∷ rest) ≡ false
unfolding is_utf8 utf8_rest lead in_range
is_utf8-continuation b rest h h' = ground arith
