-- ===== src/Prelude.antt =====
-- What the modules share: the library's names, passed on, and the names of the children.
mod Tests
mod Lists
mod ByteString
pub mod Result
pub mod Exec
pub mod OrderedMap
pub mod LittleEndian
pub mod Decimal
pub mod Members
pub use Tests.*
pub use Lists.*
unfoldable pub use ByteString.{beq, blt}
pub use ByteString.{Bytes, beq→eq, beq_self, eq→beq, beq_iff, blt_total, blt_trans, blt_irrefl}
pub use Prim.Native.Nat.{ℕ, zero, suc, ◌+◌, ◌-◌, ◌*◌, ◌/◌, ◌%◌, ◌^◌, ◌≤◌, ◌<◌, min, max}
pub use mathlib.Core.Path.{◌≡◌, refl, sym, ap, subst, ◌∙◌}
pub use mathlib.Core.Logic.{◌≢◌, ◌↔◌, ◌⊎◌, inl, inr}
pub use mathlib.Core.Bool.{Bool, true, false, not, ◌&&◌, ◌||◌}
pub use mathlib.Core.Option.{Option, none, some}
pub use mathlib.Core.List.{List, [], ◌∷◌, ◌++◌, map}
pub use native.Mathlib.Omega.{arith}
