-- ===== src/Common.antt =====
-- The names that the other modules share: the libraries', passed on, and those of the children.
mod Decide
mod Lists
mod Strings
mod Digits
mod Sort
mod Objects
unfoldable pub use Decide.*
unfoldable pub use Lists.*
unfoldable pub use Strings.*
unfoldable pub use Digits.*
unfoldable pub use Sort.*
unfoldable pub use Objects.*
pub use Prim.Native.Nat.{ℕ, zero, suc, ◌+◌, ◌-◌, ◌*◌, ◌/◌, ◌%◌, ◌^◌, ◌≤◌, ◌<◌}
pub use mathlib.Core.Path.{◌≡◌, refl, sym, ap, subst, ◌∙◌}
pub use mathlib.Core.Logic.{◌≢◌, ◌↔◌, ◌⊎◌, inl, inr}
pub use mathlib.Core.Bool.{Bool, true, false, not, ◌&&◌, ◌||◌}
pub use mathlib.Core.Option.{Option, none, some}
pub use mathlib.Core.List.{List, [], ◌∷◌, ◌++◌, map}
pub use native.Mathlib.Omega.{arith}

-- The text and dictionary functions, opened together where a test runs them.
unfoldable pub run : Unit {0}
unfolding text_eq to_lower_case trim starts_with includes join show is_digit lookup put delete sort
    insert
run = tt
