-- ===== src/Prelude.antt =====
-- The names that all parts share: the libraries', passed on, and those of the children.
mod Tests
mod Lists
mod Int
mod Pointers
mod Text
mod Trim
mod Keyed
mod Sorting
pub mod Result
pub use Tests.*
pub use Lists.*
pub use Int.*
unfoldable pub use Pointers.{copy}
pub use Pointers.{clone_with, clone_each, copy-eq, clone_with-id, clone_each-id}
unfoldable pub use Text.{size, is_space, trim}
pub use Text.{codes, size-trim}
unfoldable pub use Trim.{trim_end, trim_with, trim_text, fields, has_prefix, cut}
pub use Trim.{led, led-ne, trim_text-led, led-trim_text, cut-led, append-led}
unfoldable pub use Sorting.{sort_by}
pub use Sorting.{
  All-sort_by, count-sort_by, Pairwise, All-selected, Pairwise-select, Pairwise-sort_by,
}
unfoldable pub use Keyed.{lookup, upsert}
pub use Keyed.{Table, lookup-upsert, lookup-upsert_self, lookup-upsert_ne}
pub use Result.{
  Error, message, quoted, numbered, wrap, ok, err, ◌>>=◌, ◌>>◌, reject, within, is_ok, >>=-eq-ok,
  Result-cases,
}
pub use Prim.Native.Nat.{ℕ, zero, suc, ◌+◌, ◌-◌, ◌*◌, ◌/◌, ◌%◌, ◌^◌, ◌≤◌, ◌<◌, min, max}
pub use Prim.Native.String.{String, ◌++◌ as str_append}
pub use mathlib.Core.Path.{◌≡◌, refl, sym, ap, subst, ◌∙◌}
pub use mathlib.Core.Logic.{◌≢◌, ◌↔◌, ◌⊎◌, inl, inr}
pub use mathlib.Core.Bool.{Bool, true, false, not, ◌&&◌, ◌||◌}
pub use mathlib.Core.Option.{Option, none, some}
pub use mathlib.Core.List.{List, [], ◌∷◌, ◌++◌, map}
pub use native.Mathlib.Omega.{arith}
pub use text.Mathlib.Text.{◌==◌ as str_eq}
pub use text.Mathlib.TextEquality.{eq_iff}
