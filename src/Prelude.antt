-- ===== src/Prelude.antt =====
-- Names that the other modules share: the libraries' names passed on, the Boolean tests, and
-- lemmas on lists, options and texts.
mod Tests
mod Lists
mod Texts
pub mod Order
pub mod Words
pub mod Rows
pub use Tests.*
pub use Lists.*
pub use Texts.*
unfoldable pub use Texts.{as_bytes, to_string}
pub use Prim.Native.Nat.{ℕ, zero, suc, ◌+◌, ◌-◌, ◌*◌, ◌/◌, ◌%◌, ◌^◌, ◌≤◌, ◌<◌}
pub use Prim.Native.String.{String}
pub use Prim.Native.Char.{code}
pub use mathlib.Core.Path.{◌≡◌, refl, sym, ap, subst, ◌∙◌}
pub use mathlib.Core.Logic.{◌≢◌, ◌↔◌, ◌⊎◌, inl, inr}
pub use mathlib.Core.Bool.{Bool, true, false, not, ◌&&◌, ◌||◌}
pub use mathlib.Core.Option.{Option, none, some}
pub use mathlib.Core.List.{List, [], ◌∷◌, ◌++◌, map}
pub use native.Mathlib.Omega.{arith}
pub use text.Mathlib.Text.{◌==◌ as str_eq}
pub use Prim.Native.String.{◌++◌ as str_append}
pub use text.Mathlib.TextEquality.{eq_iff}
