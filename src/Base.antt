-- ===== src/Base.antt =====
-- Names that the other modules share: the libraries', passed on, and those of the children below.
-- Tests answer with a `Bool`; lists are measured by native numbers; `Maps` stands for `BTreeMap`.
mod Tests
mod Lists
mod Words
mod Count
mod Results
mod ByteStrings
mod Texts
pub mod Maps
pub mod Sets
pub mod Trim
pub mod Sorting
pub use Tests.*
pub use Lists.*
pub use Words.*
pub use Results.*
pub use Count.*
unfoldable pub use ByteStrings.*
unfoldable pub use Texts.*
pub use Prim.Native.Nat.{ℕ, zero, suc, ◌+◌, ◌-◌, ◌*◌, ◌/◌, ◌%◌, ◌^◌, ◌≤◌, ◌<◌, min, max}
pub use Prim.Native.String.{String}
pub use mathlib.Core.Path.{◌≡◌, refl, sym, ap, subst, ◌∙◌}
pub use mathlib.Core.Logic.{◌≢◌, ◌↔◌, ◌⊎◌, inl, inr}
pub use mathlib.Core.Bool.{Bool, true, false, not, ◌&&◌, ◌||◌}
pub use mathlib.Core.Option.{Option, none, some}
pub use mathlib.Core.List.{List, [], ◌∷◌, ◌++◌, map, reverse, Memᴰ}
pub use native.Mathlib.Omega.{arith}
unfoldable pub use native.Mathlib.Decide.{ℕ_discrete}
