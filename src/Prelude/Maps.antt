-- ===== src/Prelude/Maps.antt =====
-- Association lists keyed by text, for the source's BTreeMap<String, V> and HashMap<String, V>: `get`,
-- `insert` and `remove`. The order of the keys is not modelled.
use Prim.Native.String.{String}
use mathlib.Core.Path.{◌≡◌, refl}
use mathlib.Core.List.{List, [], ◌∷◌}
use mathlib.Core.Option.{Option, none, some}
use native.Mathlib.Omega.{arith}
use text.Mathlib.Text.{◌==◌ as str_eq}
use text.Mathlib.TextEquality.{eq_iff}
use rapidrouter.Prelude.Tests.{if◌then◌else◌}

abbrev pub Map {ℓ} : Type ℓ → Type ℓ
Map V = List (String × V)

module _ {ℓ} {V : Type ℓ} where
  unfoldable pub get : Map V → String → Option V
  get [] key = none
  get ((name, value) ∷ rest) key = if str_eq key name then some value else get rest key

  unfoldable pub insert : Map V → String → V → Map V
  insert [] key new = (key, new) ∷ []
  insert ((name, value) ∷ rest) key new =
      if str_eq key name then (name, new) ∷ rest else (name, value) ∷ insert rest key new

  unfoldable pub remove : Map V → String → Map V
  remove [] key = []
  remove ((name, value) ∷ rest) key =
      let others = remove rest key in if str_eq key name then others else (name, value) ∷ others

  pub get-insert :
      (rest : Map V) (key asked : String) (new : V)
      → get (insert rest key new) asked ≡ (if str_eq asked key then some new else get rest asked)
  unfolding get insert
  get-insert [] key asked new = refl
  get-insert ((name, value) ∷ rest) key asked new =
      ground
        (arith, get-insert rest key asked new, eq_iff asked name, eq_iff key name, eq_iff asked key)

  pub get-remove :
      (rest : Map V) (key asked : String)
      → get (remove rest key) asked ≡ (if str_eq asked key then none else get rest asked)
  unfolding get remove
  get-remove [] key asked = ground arith
  get-remove ((name, value) ∷ rest) key asked =
      ground
        (arith, get-remove rest key asked, eq_iff asked name, eq_iff key name, eq_iff asked key)
