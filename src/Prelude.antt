-- ===== src/Prelude.antt =====
-- The names that every module of the library shares: those of mathlib and of the native numbers,
-- passed on, and those of the children (tests, lists, integers, equality, byte strings, Go maps, replies).
mod Tests
mod Lists
mod Int
mod Equality
mod Bytes
mod Assoc
mod Replies
pub use Tests.*
unfoldable pub use Lists.*
unfoldable pub use Int.*
pub use Equality.*
unfoldable pub use Bytes.*
unfoldable pub use Assoc.*
pub use Replies.*
pub use Prim.Native.Nat.{ℕ, zero, suc, ◌+◌, ◌-◌, ◌*◌, ◌/◌, ◌%◌, ◌^◌, ◌≤◌, ◌<◌}
pub use mathlib.Core.Path.{◌≡◌, refl, sym, ap, subst, ◌∙◌}
pub use mathlib.Core.Logic.{◌≢◌, ◌↔◌, ◌⊎◌, inl, inr}
pub use mathlib.Core.Bool.{Bool, true, false, not, ◌&&◌, ◌||◌}
pub use mathlib.Core.Option.{Option, none, some}
pub use mathlib.Core.List.{List, [], ◌∷◌, ◌++◌, map, Perm}
pub use native.Mathlib.Omega.{arith}
