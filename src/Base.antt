-- ===== src/Base.antt =====
-- The names that the other modules share: library names passed on, Boolean tests on numbers,
-- lists, and the laws of exclusive or.
mod Tests
mod Xor
mod Lists
mod Disjoint
mod And
pub use Tests.*
pub use Lists.*
unfoldable pub use Disjoint.*
pub use And.*
pub use Xor.*
pub use Prim.Native.Nat.{
  ℕ, zero, suc, ◌+◌, ◌-◌, ◌*◌, ◌/◌, ◌%◌, ◌^◌, ◌≤◌, ◌<◌, bit_xor, bit_or, bit_and, min,
}
pub use mathlib.Core.Path.{◌≡◌, refl, sym, ap, ◌∙◌, subst, fun_ext}
pub use mathlib.Core.Logic.{◌≢◌, ◌↔◌, ◌⊎◌, inl, inr}
pub use mathlib.Core.Bool.{Bool, true, false, ◌&&◌, ◌||◌, not}
pub use mathlib.Core.Option.{Option, none, some}
pub use mathlib.Core.List.{List, [], ◌∷◌, ◌++◌}
pub use native.Mathlib.Omega.{arith}
