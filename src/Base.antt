-- ===== src/Base.antt =====
-- The names that the other modules share: the libraries', passed on, and those of two children.
mod Tests
mod Lists
mod Text
mod Assoc
mod Sorting
mod Paths
mod Keys
pub use Tests.*
pub use Lists.*
unfoldable pub use Text.{begins_with, has_part, ends_with, listed}
unfoldable pub use Assoc.{lookup, insert}
unfoldable pub use Paths.{split, append, has_slash, parent_of, base_of, depth}
pub use Paths.{
  put_first, new_part, has_slash-append, parent_of-append, base_of-append, base_of-clean,
  depth-parent_of, code_slash, append-parent_of-base_of,
}
unfoldable pub use Sorting.{keep, insert_sorted, sort}
pub use Sorting.{AllOf, IsOrdered, sort-perm, keep-sort, sort-IsOrdered, IsOrdered-weaken}
pub use Keys.{
  same_text_turn, listed-append, listed-sort, listed-keep, IsKeySet, IsKeySet-snoc, IsKeySet-keep,
  listed-take, IsKeySet-take,
}
pub use Assoc.{lookup-insert}
pub use Text.{is_empty, or_text, same_text, same_text→≡, same_text_refl}
pub use Prim.Native.Nat.{ℕ, zero, suc, ◌+◌, ◌-◌, ◌*◌, ◌/◌, ◌%◌, ◌^◌, ◌≤◌, ◌<◌}
pub use Prim.Native.String.{String}
pub use mathlib.Core.Path.{◌≡◌, refl, sym, ap, subst, ◌∙◌}
pub use mathlib.Core.Logic.{◌≢◌, ◌↔◌, ◌⊎◌, inl, inr}
pub use mathlib.Core.Bool.{Bool, true, false, not, ◌&&◌, ◌||◌}
pub use mathlib.Core.Option.{Option, none, some}
pub use mathlib.Core.List.{List, [], ◌∷◌, ◌++◌, map, append_assoc, append-nil}
pub use native.Mathlib.Omega.{arith}
