-- ===== src/Prelude.antt =====
-- The names that the modules share: the libraries', passed on, and those of four children
-- (tests on numbers, lists under native indices, text, dictionaries).
mod Tests
mod Lists
mod Text
mod Maps
pub mod Json
mod Int
pub use Tests.*
pub use Lists.*
unfoldable pub use Text.*
pub use Int.{ℤ, pos, negsuc}
unfoldable pub use Maps.{Dict, get, insert, extend, remove}
pub use Maps.{get-insert, get-insert_self, get-remove}
pub use Prim.Native.Nat.{ℕ, zero, suc, ◌+◌, ◌-◌, ◌*◌, ◌/◌, ◌%◌, ◌^◌, ◌≤◌, ◌<◌}
pub use Prim.Native.String.{String}
pub use mathlib.Core.Path.{◌≡◌, refl, sym, ap, ◌∙◌}
pub use mathlib.Core.Logic.{◌≢◌, ◌↔◌, ◌⊎◌, inl, inr}
pub use mathlib.Core.Bool.{Bool, true, false, not, ◌&&◌, ◌||◌}
pub use mathlib.Core.Option.{Option, none, some}
pub use mathlib.Core.List.{List, [], ◌∷◌, ◌++◌, map}
pub use native.Mathlib.Omega.{arith}
pub use text.Mathlib.Text.{◌==◌}
pub use text.Mathlib.TextEquality.{eq_iff}
pub use text.Mathlib.TextPositions.{eq_refl}
