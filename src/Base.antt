-- ===== src/Base.antt =====
-- The names that every other module shares: those of the libraries, passed on, and those of five
-- children.
mod Tests
mod Lists
mod Table
mod Text
mod Sorting
pub use Tests.*
pub use Lists.*
unfoldable pub use Table.{find, replace}
pub use Table.{find-append, find-replace, find-key, replace-append, replace-none}
pub use Prim.Native.Nat.{ℕ, zero, suc, ◌+◌, ◌-◌, ◌*◌, ◌≤◌, ◌<◌, min, max}
unfoldable pub use Sorting.{sort, insert_sorted}
pub use Sorting.{IsOrdered, sort-perm, sort-All, sort-IsOrdered}
pub use Text.{◌+str+◌}
unfoldable pub use Text.{show_nat, strip, text_leb, is_space, is_visible}
pub use Text.{text_leb_total, text_leb_trans, show_nat-nonempty, strip-show_nat, strip-visible}
pub use Prim.Native.String.{String}
pub use mathlib.Core.Path.{◌≡◌, refl, sym, ap, ◌∙◌, subst, subst₂}
pub use mathlib.Core.Logic.{◌≢◌, ◌↔◌, ◌⊎◌, inl, inr}
pub use mathlib.Core.Bool.{Bool, true, false, not, ◌&&◌, ◌||◌}
pub use mathlib.Core.Option.{Option, none, some}
pub use mathlib.Core.List.{List, [], ◌∷◌, ◌++◌, map, append-nil, append_assoc}
pub use native.Mathlib.Omega.{arith}
