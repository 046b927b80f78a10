-- ===== src/Prelude.antt =====
-- The names that the other modules share: the libraries', passed on, tests and tables on numbers
-- and texts, membership, and the errors of the program.
mod Tests
mod Lists
mod Strings
mod Errors
mod Tables
pub mod Int
pub use Tests.*
pub use Lists.*
pub use Strings.*
pub use Errors.*
pub use Tables.*
unfoldable pub use Tables.{lookup, lookup_last, lookup_all}
unfoldable pub use Lists.{fromkeys}
unfoldable pub use Strings.{text_eq, starts_with, has_part, join, lower}
pub use Prim.Native.Nat.{ℕ, zero, suc, ◌+◌, ◌-◌, ◌*◌, ◌≤◌, ◌<◌}
pub use mathlib.Core.Path.{◌≡◌, refl, sym, ap, ◌∙◌}
pub use mathlib.Core.Logic.{◌≢◌, ◌↔◌, ◌⊎◌, inl, inr}
pub use mathlib.Core.Bool.{Bool, true, false, not, ◌&&◌, ◌||◌}
pub use mathlib.Core.Option.{Option, none, some}
pub use mathlib.Core.List.{List, [], ◌∷◌, ◌++◌, map, map-append, append-nil, append_assoc}
pub use native.Mathlib.Omega.{arith}
