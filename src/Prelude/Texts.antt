-- ===== src/Prelude/Texts.antt =====
-- Texts as lists of characters: `split_once`, `strip_prefix` and their inverses.
use Prim.Native.String.{String, ◌++◌}
use Prim.Native.String.append
use Prim.Native.Char.{Char, code}
use Prim.Native.Nat.{ℕ}
use mathlib.Core.Path.{◌≡◌}
use mathlib.Core.Bool.{Bool, true, false}
use mathlib.Core.List.{List, [], ◌∷◌}
use mathlib.Core.Option.{Option, none, some}
use native.Mathlib.Omega.{arith}
use rapidrouter.Prelude.Tests.{if◌then◌else◌, ◌==◌}

abbrev prepend : Char → Option (String × String) → Option (String × String)
prepend c none = none
prepend c (some (a, b)) = some (String.◌∷◌ c a, b)

-- `str::split_once` at a character, by its code point.
unfoldable pub split_once : ℕ → String → Option (String × String)
split_once at String.[] = none
split_once at (String.◌∷◌ c s) =
    let rest = prepend c (split_once at s) in if code c == at then some (String.[], s) else rest

-- No character of the text is the one.
abbrev pub Lacks : ℕ → String → Type 0
Lacks at String.[] = Unit {0}
Lacks at (String.◌∷◌ c s) = ((code c == at) ≡ false) × Lacks at s

abbrev pub no_text : String → Bool
no_text String.[] = true
no_text (String.◌∷◌ c s) = false

-- A text joined at a character that its first part lacks splits there again.
pub split_once-join :
    (a b : String) (c : Char)
    → Lacks (code c) a
    → split_once (code c) (a ++ String.◌∷◌ c b) ≡ some (a, b)
unfolding split_once
split_once-join String.[] b c h = rw (append.nil (String.◌∷◌ c b)) (ground arith)
split_once-join (String.◌∷◌ d a) b c h =
    rw (append.cons d a (String.◌∷◌ c b)) (ground (arith, split_once-join a b c h.1))

-- `str::strip_prefix`.
unfoldable pub strip_prefix : String → String → Option String
strip_prefix String.[] s = some s
strip_prefix (String.◌∷◌ c p) String.[] = none
strip_prefix (String.◌∷◌ c p) (String.◌∷◌ d s) =
    let rest = strip_prefix p s in if code c == code d then rest else none

-- The code points of a text.
unfoldable pub codes : String → List ℕ
codes String.[] = []
codes (String.◌∷◌ c s) = code c ∷ codes s

pub strip_prefix-append : (p s : String) → strip_prefix p (p ++ s) ≡ some s
unfolding strip_prefix
strip_prefix-append String.[] s = rw (append.nil s)
strip_prefix-append (String.◌∷◌ c p) s =
    rw (append.cons c p s) (ground (arith, strip_prefix-append p s))
