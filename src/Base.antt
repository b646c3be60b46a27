-- ===== src/Base.antt =====
-- The names that the other modules share: the libraries', passed on, and those of the children.
mod Tests
mod Lists
pub mod Maps
pub mod Text
pub mod Fold
pub mod Bytes
pub mod Split
pub mod Decimal
pub use Tests.*
pub use Lists.*
unfoldable pub use Maps.{lookup, insert, delete, map_values}
pub use Maps.{Dict, lookup-insert, lookup-delete, lookup-insert_self, lookup-map_values}
pub use Maps.{Entries, Has, Entries-insert, Entries-delete, Has-insert}
unfoldable pub use Text.{trim_space, is_empty, is_blank, ◌=s◌, all_solid}
pub use Text.{=s_iff, =s_refl, is_empty_iff, trim_space_idem, trim_space-append}
unfoldable pub use Decimal.{format_uint}
pub use Decimal.{format_uint_injective}
pub use Prim.Native.Nat.{ℕ, zero, suc, ◌+◌, ◌-◌, ◌*◌, ◌/◌, ◌%◌, ◌^◌, ◌≤◌, ◌<◌}
pub use Prim.Native.String.{String, ◌++◌ as ◌+s◌}
pub use mathlib.Core.Path.{◌≡◌, refl, sym, ap, subst, ◌∙◌}
pub use mathlib.Core.Logic.{◌≢◌, ◌↔◌, ◌⊎◌, inl, inr}
pub use mathlib.Core.Bool.{Bool, true, false, not, ◌&&◌, ◌||◌}
pub use mathlib.Core.Option.{Option, none, some}
pub use mathlib.Core.List.{List, [], ◌∷◌, ◌++◌}
pub use native.Mathlib.Omega.{arith}
