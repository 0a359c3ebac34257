-- ===== src/Common.antt =====
-- The names that the other modules share: those of the libraries in use, and of the children below.
mod Tests
mod Lists
mod Texts
pub mod Table
pub mod Run
pub use Tests.*
pub use Lists.*
pub use Texts.{Bytes, IsByte, IsBytes, codes, bytes_eq→eq, bytes_eq_self}
unfoldable pub use Texts.{bytes_eq, c_string}
pub use Prim.Native.Nat.{ℕ, zero, suc, ◌+◌, ◌-◌, ◌*◌, ◌/◌, ◌%◌, ◌^◌, ◌≤◌, ◌<◌, min, max}
pub use Prim.Native.String.{String}
pub use mathlib.Core.Path.{◌≡◌, refl, sym, ap, ap₂, subst, ◌∙◌}
pub use mathlib.Core.Logic.{◌≢◌, ◌↔◌, ◌⊎◌, inl, inr}
pub use mathlib.Core.Bool.{Bool, true, false, ◌&&◌, ◌||◌, not}
pub use mathlib.Core.Option.{Option, none, some}
pub use mathlib.Core.List.{List, [], ◌∷◌, ◌++◌, map, append_assoc, append-nil}
pub use native.Mathlib.Omega.{arith}
