-- ===== src/Base.antt =====
-- The names that the other modules share: the libraries', passed on, and those of the children.
-- Go strings are lists of bytes, Go maps are association lists (Assoc) or functions (counters).
mod Tests
mod Lists
mod Order
mod Assoc
mod Multiset
mod Sorting
mod Hex
mod Disk
unfoldable pub use Tests.*
unfoldable pub use Lists.*
unfoldable pub use Order.*
unfoldable pub use Assoc.*
unfoldable pub use Multiset.*
unfoldable pub use Sorting.*
unfoldable pub use Hex.*
unfoldable pub use Disk.*
pub use Prim.Native.Nat.{ℕ, zero, suc, ◌+◌, ◌-◌, ◌*◌, ◌/◌, ◌%◌, ◌^◌, ◌≤◌, ◌<◌, min, max}
pub use mathlib.Core.Path.{◌≡◌, refl, sym, ap, ◌∙◌, ◌≡⟨◌⟩◌, ◌∎}
pub use mathlib.Core.Logic.{◌≢◌, ◌↔◌, ◌⊎◌, inl, inr}
pub use mathlib.Core.Bool.{Bool, true, false, ◌&&◌, ◌||◌, not}
pub use mathlib.Core.Option.{Option, none, some}
pub use mathlib.Core.List.{List, [], ◌∷◌, ◌++◌, map, append_assoc, append-nil}
pub use native.Mathlib.Omega.{arith}
