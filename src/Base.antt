-- ===== src/Base.antt =====
-- Names the other modules share: the libraries' data types and operators, passed on, and the
-- Boolean tests, list and text helpers of the child modules.
mod Tests
mod Lists
mod Lines
mod Partial
mod Sorted
unfoldable pub use Tests.*
unfoldable pub use Lists.*
unfoldable pub use Lines.*
unfoldable pub use Partial.*
unfoldable pub use Sorted.*
pub use Prim.Native.Nat.{ℕ, zero, suc, ◌+◌, ◌-◌, ◌*◌, ◌/◌, ◌%◌, ◌≤◌, ◌<◌, bit_and}
pub use Prim.Native.Char.{code}
pub use mathlib.Core.Path.{◌≡◌, refl, sym, ap, ◌∙◌}
pub use mathlib.Core.Logic.{◌≢◌, ◌↔◌, ◌⊎◌, inl, inr}
pub use mathlib.Core.Bool.{Bool, true, false, not, ◌&&◌, ◌||◌}
pub use mathlib.Core.Option.{Option, none, some}
pub use mathlib.Core.List.{List, [], ◌∷◌, ◌++◌, map, reverse, append_assoc, append-nil, map-append}
pub use native.Mathlib.Omega.{arith}
