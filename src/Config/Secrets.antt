-- ===== src/Config/Secrets.antt =====
-- `EnvSource` and `resolve_secret` of crates/router-core/src/config/validate.rs: what a reference to a
-- secret stands for. The environment and the files are arguments; a file that cannot be read is `none`.
use Prim.Native.String.{String}
use Prim.Native.Char.{code}
use rapidrouter.Prelude.{
  ℕ, Bool, ◌&&◌, ◌||◌, Option, none, some, leb, ◌==◌, if◌then◌else◌, strip_prefix, no_text,
}
use rapidrouter.Config.Checked.{
  Message, empty_value, empty_reference, unset, unset_but_empty, unreadable, empty_file,
}

-- `char::is_whitespace`, by the code point.
unfoldable pub is_whitespace : ℕ → Bool
is_whitespace c =
    (leb 9 c && leb c 13)
    || c == 32
    || c == 133
    || c == 160
    || c == 5760
    || (leb 8192 c && leb c 8202)
    || c == 8232
    || c == 8233
    || c == 8239
    || c == 8287
    || c == 12288

unfoldable pub trim_start : String → String
unfolding is_whitespace
trim_start String.[] = String.[]
trim_start (String.◌∷◌ c s) =
    let rest = trim_start s in if is_whitespace (code c) then rest else String.◌∷◌ c s

unfoldable pub trim_end : String → String
unfolding is_whitespace
trim_end String.[] = String.[]
trim_end (String.◌∷◌ c s) =
    let rest = trim_end s in
    if is_whitespace (code c) && no_text rest then String.[] else String.◌∷◌ c rest

-- `str::trim`.
unfoldable pub trim : String → String
unfolding trim_start trim_end
trim s = trim_start (trim_end s)

pub record Sources : Type 0 where
  pub env : String → Option String
  pub read_file : String → Option String

pub data Secret : Type 0 where
  refused : Message → Secret
  secret : String → Secret

from_file : Sources → String → Secret
unfolding trim
from_file s path = if no_text path then refused empty_reference else elim (s.read_file path) [
  | none ↦ refused (unreadable path)
  | some contents ↦
      if no_text (trim contents) then refused (empty_file path) else secret (trim contents)
]

from_env : Sources → String → Secret
from_env s var = if no_text var then refused empty_reference else elim (s.env var) [
  | none ↦ refused (unset var)
  | some v ↦ if no_text v then refused (unset_but_empty var) else secret v
]

-- The source that answers for the sealed store is asked for the whole reference.
from_store : Sources → String → String → Secret
from_store s reference name =
    if no_text name then refused empty_reference else elim (s.env reference) [
      | none ↦ refused (unset name)
      | some v ↦ if no_text v then refused (unset name) else secret v
    ]

literal : String → Secret
literal value = if no_text value then refused empty_value else secret value

unfoldable pub resolve_secret : Sources → String → Secret
unfolding from_file from_env from_store literal
resolve_secret s value = elim (strip_prefix "file:" value) [
  | some path ↦ from_file s path
  | none ↦ elim (strip_prefix "env." value) [
    | some var ↦ from_env s var
    | none ↦ elim (strip_prefix "store." value) [
      | some name ↦ from_store s value name
      | none ↦ literal value
    ]
  ]
]
