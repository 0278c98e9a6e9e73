-- ===== src/Base.antt =====
-- The names that the other modules share: the libraries', passed on, and those of the children.
mod Tests
mod Lists
mod Words
mod Memory
pub use Tests.*
pub use Lists.*
unfoldable pub use Words.{le_bytes, from_le}
pub use Words.{IsByte, length-le_bytes, from_le-le_bytes}
unfoldable pub use Memory.{write_at, read_at, c_string}
pub use Memory.{
  splice, write_at-fits, write_at-some_fits, length-write_at, take-write_at, read_at-middle,
  read_at-fits, read_at-write_at, read_at-frame, write_at-append, c_string-middle,
}
pub use Prim.Native.Nat.{ℕ, zero, suc, ◌+◌, ◌-◌, ◌*◌, ◌/◌, ◌%◌, ◌^◌, ◌≤◌, ◌<◌}
pub use mathlib.Core.Path.{◌≡◌, refl, sym, ap, subst, ◌∙◌}
pub use mathlib.Core.Logic.{◌≢◌, ◌↔◌, ◌⊎◌, inl, inr}
pub use mathlib.Core.Bool.{Bool, true, false, not, ◌&&◌, ◌||◌}
pub use mathlib.Core.Option.{Option, none, some}
pub use mathlib.Core.List.{List, [], ◌∷◌, ◌++◌, map}
pub use native.Mathlib.Omega.{arith}
