-- ===== src/Prelude.antt =====
-- Names that all modules share: those of the libraries, passed on, Boolean tests and the
-- conditional (Tests), arrays as lists (Lists), tables of bytes (Bytes), results of C
-- functions (Results), integers (Int), circular buffers (Ring).
mod Tests
mod Lists
mod Bytes
mod Results
mod Int
mod Ring
pub use Tests.*
pub use Lists.*
unfoldable pub use Bytes.*
pub use Results.*
pub use Int.*
pub use Ring.*
pub use Prim.Native.Nat.{
  ℕ, zero, suc, ◌+◌, ◌-◌, ◌*◌, ◌/◌, ◌%◌, ◌^◌, ◌≤◌, ◌<◌, min, bit_and, bit_or, bit_xor,
}
pub use mathlib.Core.Path.{◌≡◌, refl, sym, ap, ◌∙◌}
pub use mathlib.Core.Logic.{◌≢◌, ◌↔◌, ◌⊎◌, inl, inr}
pub use mathlib.Core.Bool.{Bool, true, false, not, ◌&&◌, ◌||◌}
pub use mathlib.Core.Option.{Option, none, some}
pub use mathlib.Core.List.{List, [], ◌∷◌, ◌++◌, map}
pub use native.Mathlib.Omega.{arith}
unfoldable pub use native.Mathlib.Decide.{dec_lt, dec_le, ℕ_discrete}
