-- ===== src/Base.antt =====
-- The names that the modules share: the libraries' names passed on, the Boolean tests on numbers,
-- and the children for equality, lists and Python's `dict`.
mod Tests
pub mod Equality
pub mod Lists
pub mod Dict
pub mod Sets
pub mod Json
pub mod Plain
pub mod Unique
pub mod Chars
pub use Tests.*
pub use Equality.{PyEq, ◌==◌, nat_eq, string_eq, pair_eq}
pub use Prim.Native.Nat.{ℕ, zero, suc, ◌+◌, ◌-◌, ◌*◌, ◌/◌, ◌≤◌, ◌<◌, max, min}
pub use Prim.Native.String.{String}
pub use mathlib.Core.Path.{◌≡◌, refl, sym, ap, ◌∙◌}
pub use mathlib.Core.Logic.{◌≢◌, ◌↔◌, ◌⊎◌, inl, inr}
pub use mathlib.Core.Bool.{Bool, true, false, not, ◌&&◌, ◌||◌}
pub use mathlib.Core.Option.{Option, none, some}
pub use mathlib.Core.List.{List, [], ◌∷◌, ◌++◌, map}
pub use native.Mathlib.Omega.{arith}
pub use text.Mathlib.TextEquality.{eq_iff}
