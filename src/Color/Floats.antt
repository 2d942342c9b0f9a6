-- ===== src/Color/Floats.antt =====
-- The numbers of JavaScript: the operations that the sources call, as an interface, and the facts of
-- IEEE 754 that the theorems rely on. `Math.cbrt`, `Math.atan2` and `**` are implementation-defined.
use desktopcolors.Common.{ℕ, Bool, true, false, not, ◌≡◌, Text}

pub record Floats : Type 1 where
  pub F : Type 0
  -- an integer, and the literal m / 10 ^ k
  pub num : ℕ → F
  pub dec : ℕ → ℕ → F
  pub add : F → F → F
  pub sub : F → F → F
  pub mul : F → F → F
  pub div : F → F → F
  pub pow : F → F → F
  pub sqrt : F → F
  pub cbrt : F → F
  pub atan2 : F → F → F
  pub pi : F
  pub infinity : F
  pub round : F → F
  -- `a < b`, `a <= b`, `a === b`
  pub lt : F → F → Bool
  pub le : F → F → Bool
  pub eq : F → F → Bool
  pub is_nan : F → Bool
  pub is_finite : F → Bool
  -- `${a}`, `a.toFixed(d)`
  pub show : F → Text
  pub to_fixed : ℕ → F → Text

-- The order of IEEE 754: a strict order on what is not NaN, and no test with NaN holds.
pub record IsOrdered (fl : Floats) : Type 0 where
  pub asymm : (a b : fl.F) → fl.lt a b ≡ true → fl.lt b a ≡ false
  pub neg_trans :
      (a b c : fl.F)
      → fl.is_nan b ≡ false
      → fl.lt a b ≡ false
      → fl.lt b c ≡ false
      → fl.lt a c ≡ false
  pub le_lem :
      (a b : fl.F) → fl.is_nan a ≡ false → fl.is_nan b ≡ false → fl.le a b ≡ not (fl.lt b a)
  pub num_lem : (n : ℕ) → fl.is_nan (fl.num n) ≡ false
  pub dec_lem : (m k : ℕ) → fl.is_nan (fl.dec m k) ≡ false
  pub finite_lem : (a : fl.F) → fl.is_finite a ≡ true → fl.is_nan a ≡ false
  pub infinity_lem : (a : fl.F) → fl.is_finite a ≡ true → fl.lt a fl.infinity ≡ true
  pub eq_sym : (a b : fl.F) → fl.eq a b ≡ fl.eq b a
  pub eq_not_lt : (a b : fl.F) → fl.eq a b ≡ true → fl.lt a b ≡ false
  pub eq_number : (a b : fl.F) → fl.eq a b ≡ true → fl.is_nan a ≡ false
  pub eq_of_not_lt :
      (a b : fl.F)
      → fl.is_nan a ≡ false
      → fl.is_nan b ≡ false
      → fl.lt a b ≡ false
      → fl.lt b a ≡ false
      → fl.eq a b ≡ true
