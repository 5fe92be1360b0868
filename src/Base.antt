-- ===== src/Base.antt =====
-- The names that the other modules share: the libraries', passed on, and those of the children.
mod Tests
mod Lists
mod Outcome
mod Eq
pub mod Texts
pub mod Case
pub mod Dict
pub mod Slices
pub mod Keys
pub mod Number
pub mod Integers
pub use Tests.*
pub use Lists.*
pub use Outcome.*
pub use Eq.{Equality, beq, nat_equality, bool_equality, pair_equality, option_equality, ◌=?◌}
pub use Eq.{beq_refl, beq→eq, eq→beq, ne→beq, beq_sym}
pub use Texts.{Text, text_equality}
pub use Prim.Native.Nat.{ℕ, zero, suc, max, min, ◌+◌, ◌-◌, ◌*◌, ◌/◌, ◌%◌, ◌^◌, ◌≤◌, ◌<◌}
pub use mathlib.Core.Path.{◌≡◌, refl, sym, ap, ◌∙◌}
pub use mathlib.Core.Logic.{◌≢◌, ◌↔◌, ◌⊎◌, inl, inr}
pub use mathlib.Core.Bool.{Bool, true, false, not, ◌&&◌, ◌||◌, false≢true}
pub use mathlib.Core.Option.{Option, none, some}
pub use mathlib.Core.List.{List, [], ◌∷◌, ◌++◌, map}
pub use native.Mathlib.Omega.{arith}
