-- ===== src/Prelude.antt =====
-- The names that the other modules share: the library's, passed on, and those of its children:
-- Boolean tests, lists over the native numbers, words, association maps, texts and byte strings.
mod Tests
mod Lists
mod Words
mod Maps
mod Texts
mod Bytes
pub use Tests.*
unfoldable pub use Lists.*
unfoldable pub use Words.*
unfoldable pub use Maps.*
unfoldable pub use Texts.*
unfoldable pub use Bytes.*
pub use Prim.Native.Nat.{
  ℕ, zero, suc, ◌+◌, ◌-◌, ◌*◌, ◌/◌, ◌%◌, ◌^◌, ◌≤◌, ◌<◌, min, max, Ordering, compare,
}
pub use mathlib.Core.Path.{◌≡◌, refl, sym, ap, subst, fun_ext, ◌∙◌}
pub use mathlib.Core.Logic.{◌≢◌, ◌↔◌, ◌⊎◌, inl, inr}
pub use mathlib.Core.Bool.{Bool, true, false, not, ◌&&◌, ◌||◌}
pub use mathlib.Core.Option.{Option, none, some}
pub use mathlib.Core.List.{List, [], ◌∷◌, ◌++◌, map, append_assoc, append-nil}
pub use native.Mathlib.Omega.{arith}
pub use text.Mathlib.Text.{◌==◌ as str_eq}
pub use text.Mathlib.TextEquality.{eq_iff}
