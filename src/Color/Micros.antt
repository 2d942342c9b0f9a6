-- ===== src/Color/Micros.antt =====
-- A stand-in for the numbers of JavaScript, where a theorem over any numbers is taken at a concrete
-- one: millionths, with a bound for infinity, absolute differences, and identities for the transcendental functions.
use desktopcolors.Common.{
  ℕ, ◌+◌, ◌-◌, ◌*◌, ◌/◌, ◌^◌, true, false, not, ◌≡◌, refl, arith, ltb, leb, ◌==◌, show,
}
use desktopcolors.Color.Floats.{Floats, IsOrdered}

abbrev top : ℕ
top = 10 ^ 60

abbrev pub micros : Floats
micros = record {
  F = ℕ;
  num = λ n. n * 10 ^ 6;
  dec = λ m k. m * 10 ^ 6 / 10 ^ k;
  add = λ a b. a + b;
  sub = λ a b. (a - b) + (b - a);
  mul = λ a b. a * b / 10 ^ 6;
  div = λ a b. a * 10 ^ 6 / b;
  pow = λ a b. a * a / 10 ^ 6;
  sqrt = λ a. a;
  cbrt = λ a. a;
  atan2 = λ b a. b;
  pi = 3141592;
  infinity = top;
  round = λ a. (a + 500000) / 10 ^ 6 * 10 ^ 6;
  lt = ltb;
  le = leb;
  eq = ◌==◌;
  is_nan = λ a. false;
  is_finite = λ a. ltb a top;
  show = λ a. show (a / 10 ^ 6);
  to_fixed = λ k a. show (a / 10 ^ 6);
}

asymm : (a b : ℕ) → ltb a b ≡ true → ltb b a ≡ false
asymm a b h = ground arith

neg_trans : (a b c : ℕ) → ltb a b ≡ false → ltb b c ≡ false → ltb a c ≡ false
neg_trans a b c h k = ground arith

le_lem : (a b : ℕ) → leb a b ≡ not (ltb b a)
le_lem a b = ground arith

same_sym : (a b : ℕ) → (a == b) ≡ (b == a)
same_sym a b = ground arith

same_not_lt : (a b : ℕ) → (a == b) ≡ true → ltb a b ≡ false
same_not_lt a b h = ground arith

same_of_not_lt : (a b : ℕ) → ltb a b ≡ false → ltb b a ≡ false → (a == b) ≡ true
same_of_not_lt a b h k = ground arith

pub micros-IsOrdered : IsOrdered micros
micros-IsOrdered = record {
  asymm = asymm;
  neg_trans = λ a b c _. neg_trans a b c;
  le_lem = λ a b _ _. le_lem a b;
  num_lem = λ n. refl;
  dec_lem = λ m k. refl;
  finite_lem = λ a _. refl;
  infinity_lem = λ a h. h;
  eq_sym = same_sym;
  eq_not_lt = same_not_lt;
  eq_number = λ a b _. refl;
  eq_of_not_lt = λ a b _ _. same_of_not_lt a b;
}
