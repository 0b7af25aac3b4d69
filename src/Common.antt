-- ===== src/Common.antt =====
-- The names that the other modules share: those of the libraries, passed on, and the helpers of
-- the child modules (tests, lists, string maps, text).
mod Tests
mod Lists
mod Maps
mod Text
mod Results
mod Calls
mod Sets
pub mod Run
pub mod Options
pub use Tests.*
pub use Lists.{length, any, all, select, All, All-append, All-zip, any-weaken, count-append}
unfoldable pub use Lists.{count}
pub use Results.*
pub use Calls.*
pub use Sets.*
unfoldable pub use Maps.{lookup, insert, remove, filter_keys, union, has_key, lookup_or, same_map}
pub use Maps.{
  Dict, SameMap, lookup-insert, lookup-remove, lookup-filter_keys, lookup-union, same_map_iff,
  SameMap-refl, dict_laws, lookup-nil, lookup-cons_hit, lookup-cons_miss, lookup_or-insert,
  any-insert, any-filter_keys, any-remove,
}
unfoldable pub use Text.{
  split, split_two, has_prefix, trim_prefix, replace_first, join, parse_int64, atoi, show_int64,
}
pub use Text.{split-cons, ℤ, pos, negsuc, ◌<>◌}
pub use Prim.Native.Nat.{ℕ, zero, suc, ◌+◌, ◌-◌, ◌*◌, ◌/◌, ◌%◌, ◌^◌, ◌≤◌, ◌<◌}
pub use Prim.Native.String.{String}
pub use mathlib.Core.Path.{◌≡◌, refl, sym, ap, ◌∙◌, subst}
pub use mathlib.Core.Logic.{◌≢◌, ◌↔◌, ◌⊎◌, inl, inr}
pub use mathlib.Core.Bool.{Bool, true, false, ◌&&◌, ◌||◌, not}
pub use mathlib.Core.Option.{Option, none, some}
pub use mathlib.Core.List.{List, [], ◌∷◌, ◌++◌, map}
pub use native.Mathlib.Omega.{arith}
pub use text.Mathlib.Text.{◌==◌}
pub use text.Mathlib.TextEquality.{eq_iff}
pub use text.Mathlib.TextPositions.{eq_refl}
