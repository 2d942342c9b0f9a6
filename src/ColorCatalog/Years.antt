-- ===== src/ColorCatalog/Years.antt =====
-- The search by year: a year that a color's range spans finds the color.
use desktopcolors.Common.{
  ℕ, ◌+◌, ◌/◌, ◌%◌, ◌≤◌, List, [], ◌∷◌, ◌++◌, Bool, true, false, ◌||◌, ◌≡◌, refl, ap, ◌∙◌, arith,
  Text, codes, to_lower_case, trim, trim_start, is_space, lower_unit, show, is_digit, digits_value,
  four_digits, show-four_digits, if◌then◌else◌, ◌==◌, Dict, Bool-cases, inl, inr,
}
use desktopcolors.Color.Floats.{Floats}
use desktopcolors.ColorCatalog.Defs.{ColorEntry}
use desktopcolors.ColorCatalog.Platforms.{Platform}
use desktopcolors.ColorCatalog.Query.{is_year, years_in, spans, matches_query, matches_color_query}

is_digit-digit : (n : ℕ) → is_digit (b'0' + n % 10) ≡ true
unfolding is_digit
is_digit-digit n = ground arith

is_space-digit : (n : ℕ) → is_space (b'0' + n % 10) ≡ false
unfolding is_space
is_space-digit n = ground arith

lower_unit-digit : (n : ℕ) → lower_unit (b'0' + n % 10) ≡ b'0' + n % 10
unfolding lower_unit
lower_unit-digit n = ground arith

trim-four :
    (a b c d : ℕ)
    → is_space a ≡ false
    → is_space d ≡ false
    → trim (a ∷ b ∷ c ∷ d ∷ []) ≡ a ∷ b ∷ c ∷ d ∷ []
unfolding trim trim_start
trim-four a b c d h k = rw h (rw k refl)

lower-four :
    (a b c d : ℕ)
    → to_lower_case ((b'0' + a % 10) ∷ (b'0' + b % 10) ∷ (b'0' + c % 10) ∷ (b'0' + d % 10) ∷ [])
      ≡ (b'0' + a % 10) ∷ (b'0' + b % 10) ∷ (b'0' + c % 10) ∷ (b'0' + d % 10) ∷ []
unfolding to_lower_case
lower-four a b c d = λ i.
    lower_unit-digit a i ∷ lower_unit-digit b i ∷ lower_unit-digit c i ∷ lower_unit-digit d i ∷ []

query-four : (n : ℕ) → to_lower_case (trim (four_digits n)) ≡ four_digits n
query-four n =
    ap to_lower_case (trim-four _ _ _ _ (is_space-digit (n / 10 / 10 / 10)) (is_space-digit n))
    ∙ lower-four (n / 10 / 10 / 10) (n / 10 / 10) (n / 10) n

digits_value-four : (n : ℕ) → n ≤ 9999 → digits_value 0 (four_digits n) ≡ n
unfolding digits_value
digits_value-four n h = omega (arith, h)

is_year-four : (n : ℕ) → is_year (four_digits n) ≡ true
is_year-four n =
    rw
      (
        is_digit-digit (n / 10 / 10 / 10),
        is_digit-digit (n / 10 / 10),
        is_digit-digit (n / 10),
        is_digit-digit n,
      )
      refl

years_in-four :
    (n : ℕ) (s : Text)
    → years_in 0 [] (four_digits n ++ s) ≡ digits_value 0 (four_digits n) ∷ years_in 0 [] s
unfolding years_in
years_in-four n s =
    rw
      (
        is_digit-digit (n / 10 / 10 / 10),
        is_digit-digit (n / 10 / 10),
        is_digit-digit (n / 10),
        is_digit-digit n,
      )
      refl

-- the label of a color's years, as `mergeColorsByHex` writes it
abbrev pub label : ℕ → ℕ → Text
label lo hi = if lo == hi then show lo else show lo ++ (codes "–" ++ show hi)

years_in-one : (n : ℕ) → n ≤ 9999 → years_in 0 [] (four_digits n) ≡ n ∷ []
unfolding years_in
years_in-one n h = years_in-four n [] ∙ ap (λ m. m ∷ []) (digits_value-four n h)

years_in-two :
    (lo hi : ℕ)
    → lo ≤ 9999
    → hi ≤ 9999
    → years_in 0 [] (four_digits lo ++ (codes "–" ++ four_digits hi)) ≡ lo ∷ hi ∷ []
unfolding years_in is_digit
years_in-two lo hi h k =
    years_in-four lo (codes "–" ++ four_digits hi)
    ∙ (λ i. digits_value-four lo h i ∷ years_in-one hi k i)

spans-label :
    (lo y hi : ℕ)
    → 1000 ≤ lo
    → lo ≤ y
    → y ≤ hi
    → hi ≤ 9999
    → spans (years_in 0 [] (label lo hi)) y ≡ true
unfolding spans
spans-label lo y hi a b c d = elim (Bool-cases (lo == hi)) [
  | inl e ↦ rw e (
      rw (show-four_digits lo a (omega (arith, b, c, d)), years_in-one lo (omega (arith, b, c, d)))
        (ground (arith, b, c, e)))
  | inr e ↦ rw e (
      rw
        (
          show-four_digits lo a (omega (arith, b, c, d)),
          show-four_digits hi (omega (arith, a, b, c)) d,
          years_in-two lo hi (omega (arith, b, c, d)) d,
        )
        (ground (arith, b, c)))
]

or_true : (b : Bool) → (b || true) ≡ true
or_true true = refl
or_true false = refl

module _ (fl : Floats) where
  -- A query of a four-digit year finds every color whose range of four-digit years spans the year, also
  -- where the label does not name it.
  pub matches_color_query_year :
      (c : ColorEntry fl) (lo y hi : ℕ) (platforms_by_hex : Dict (List Platform))
      → c.year_range ≡ label lo hi
      → 1000 ≤ lo
      → lo ≤ y
      → y ≤ hi
      → hi ≤ 9999
      → matches_color_query fl c (show y) platforms_by_hex ≡ true
  unfolding matches_color_query matches_query
  matches_color_query_year c lo y hi d range h1 h2 h3 h4 =
      rw
        (
          show-four_digits y (omega (arith, h1, h2)) (omega (arith, h3, h4)),
          query-four y,
          is_year-four y,
          digits_value-four y (omega (arith, h3, h4)),
          range,
          spans-label lo y hi h1 h2 h3 h4,
        )
        (or_true _)
