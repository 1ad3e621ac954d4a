-- ===== src/Common.antt =====
-- Names that the modules of the library share: the libraries' own, passed on, and the children's.
mod Tests
mod Lists
mod Bits
mod Errors
mod Table
pub mod Int64
pub use Tests.*
pub use Lists.*
pub use Bits.*
pub use Errors.*
unfoldable pub use Table.*
pub use Prim.Native.Nat.{ℕ, zero, suc, ◌+◌, ◌-◌, ◌*◌, ◌/◌, ◌%◌, ◌^◌, ◌≤◌, ◌<◌}
pub use Prim.Native.String.{String}
pub use mathlib.Core.Path.{◌≡◌, refl, sym, ap, ◌∙◌, subst}
pub use mathlib.Core.Logic.{◌≢◌, ◌↔◌, ◌⊎◌, inl, inr}
pub use mathlib.Core.Bool.{Bool, true, false, not, ◌&&◌, ◌||◌}
pub use mathlib.Core.Option.{Option, none, some}
pub use mathlib.Core.List.{List, [], ◌∷◌, ◌++◌, map}
pub use native.Mathlib.Omega.{arith}
pub use native.Mathlib.Nat.{add_assoc, add-zero, zero-add}
pub use text.Mathlib.TextEquality.{eq_iff}
