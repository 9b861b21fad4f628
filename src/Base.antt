-- ===== src/Base.antt =====
-- Names that the other modules share: those of the libraries, passed on, Boolean tests on the
-- native numbers, and lists with native indices.
mod Tests
mod Lists
mod Words
mod Errno
mod Update
pub mod Int
pub mod Wrap
pub use Tests.*
pub use Lists.*
pub use Words.*
pub use Errno.*
pub use Update.*
pub use Prim.Native.Nat.{
  ℕ, zero, suc, ◌+◌, ◌-◌, ◌*◌, ◌/◌, ◌%◌, ◌^◌, ◌≤◌, ◌<◌, min, bit_and, bit_or, bit_xor,
}
pub use mathlib.Core.Path.{◌≡◌, refl, sym, subst, ap, ap₂, ◌∙◌, fun_ext}
pub use mathlib.Core.Logic.{◌≢◌, ◌↔◌, ◌⊎◌, inl, inr}
pub use mathlib.Core.Bool.{Bool, true, false, ◌&&◌, ◌||◌, not}
pub use mathlib.Core.Option.{Option, none, some}
pub use mathlib.Core.List.{List, [], ◌∷◌, ◌++◌, map, append-nil, append_assoc}
pub use native.Mathlib.Omega.{arith}
