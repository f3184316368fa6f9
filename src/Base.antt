-- ===== src/Base.antt =====
-- The names that the other modules share: those of the libraries, passed on, Boolean tests on the
-- native numbers, lists measured by them, Go strings as byte lists, and signed integers.
mod Tests
mod Lists
mod Strings
mod Int
mod Decimal
mod Text
pub use Tests.*
pub use Lists.*
pub use Strings.{Str, codes, str_eq_iff, str_eq_self, is_empty, is_empty_iff}
unfoldable pub use Strings.{str_eq, utf8}
pub use Int.*
unfoldable pub use Decimal.{format_uint}
pub use Text.{onto_first, is_space1, is_space2, is_space3}
unfoldable pub use Text.{split_on, join_with, trim_byte, skip_space, trim_space}
pub use Prim.Native.Nat.{ℕ, zero, suc, ◌+◌, ◌-◌, ◌*◌, ◌/◌, ◌%◌, ◌^◌, ◌≤◌, ◌<◌, min}
pub use mathlib.Core.Path.{◌≡◌, refl, sym, ap, subst, fun_ext, ◌∙◌}
pub use mathlib.Core.Logic.{◌≢◌, ◌↔◌, ◌⊎◌, inl, inr}
pub use mathlib.Core.Bool.{Bool, true, false, not, ◌&&◌, ◌||◌}
pub use mathlib.Core.Option.{Option, none, some, get_or}
pub use mathlib.Core.List.{List, [], ◌∷◌, ◌++◌, map, append_assoc, append-nil, map-append}
pub use native.Mathlib.Omega.{arith}
