-- ===== src/Base.antt =====
-- The shared names: the libraries', passed on, and those of the children. The children hold the
-- Boolean tests and conditional, signed integers, Python's dict and list idioms, the string tests
-- of the source (`not x.strip()`), dates, `sorted` and `max` by a key, floats and the text of numbers.
mod Tests
mod Int
mod Dicts
mod Lists
mod Dates
mod Members
mod Sorting
mod Floats
mod Text
mod Outcome
pub use Tests.*
unfoldable pub use Int.*
unfoldable pub use Dicts.*
unfoldable pub use Lists.*
unfoldable pub use Dates.*
pub use Members.*
unfoldable pub use Sorting.*
unfoldable pub use Floats.*
unfoldable pub use Text.*
pub use Outcome.*
pub use Prim.Native.Nat.{ℕ, zero, suc, ◌+◌, ◌-◌, ◌*◌, ◌/◌, ◌%◌, ◌^◌, ◌≤◌, ◌<◌, max}
pub use Prim.Native.String.{String}
pub use mathlib.Core.Path.{◌≡◌, refl, sym, ap, ◌∙◌}
pub use mathlib.Core.Logic.{◌≢◌, ◌↔◌, ◌⊎◌, inl, inr}
pub use mathlib.Core.Bool.{Bool, true, false, not, ◌&&◌, ◌||◌}
pub use mathlib.Core.Option.{Option, none, some}
pub use mathlib.Core.List.{List, [], ◌∷◌, ◌++◌, map}
pub use native.Mathlib.Nat.{div-add-mod, mod-lt, pow-suc}
pub use native.Mathlib.Omega.{arith}
pub use text.Mathlib.Text.{◌==◌}
pub use text.Mathlib.TextEquality.{eq_iff}
pub use text.Mathlib.TextPositions.{eq_refl}
