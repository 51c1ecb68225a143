-- ===== src/Base.antt =====
-- What the models share: Boolean tests, options, results, lists over the native numbers, integers
-- for amounts of money, and the insertion-ordered `Map` of the source.
pub mod Tests
pub mod Lists
pub mod Int
pub mod Map
pub mod Errors
pub mod Sorting
pub mod Decimal
pub use Tests.*
pub use Lists.*
pub use Errors.*
unfoldable pub use Sorting.{sort_by}
unfoldable pub use Decimal.{decimal}
pub use Decimal.{join_colons}
pub use Sorting.{IsSorted, sort_by-IsSorted, sort_by-Member, Member-sort_by}
pub use Prim.Native.Nat.{ℕ, zero, suc, ◌+◌, ◌-◌, ◌*◌, ◌/◌, ◌%◌, ◌^◌, ◌≤◌, ◌<◌, min, max}
pub use Prim.Native.String.{String}
pub use mathlib.Core.Path.{◌≡◌, refl, sym, ap, ◌∙◌, subst}
pub use mathlib.Core.Logic.{◌≢◌, ◌↔◌, ◌⊎◌, inl, inr}
pub use mathlib.Core.Bool.{Bool, true, false, not, ◌&&◌, ◌||◌}
pub use mathlib.Core.Option.{Option, none, some}
pub use mathlib.Core.List.{List, [], ◌∷◌, ◌++◌, map, append-nil, append_assoc}
pub use native.Mathlib.Omega.{arith}
