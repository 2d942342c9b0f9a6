-- ===== src/Color/Score.antt =====
-- `formatScore` of lib/color.ts. The quotient by 1000 is rounded to a double, and `toFixed` rounds that
-- double: both roundings are written out over natural numbers, for points below 2 ^ 53.
use native.Mathlib.Nat.{pow-suc, mul-le-mul, le_refl, div-add-mod, mod-lt}
use desktopcolors.Common.{
  ℕ, zero, suc, ◌+◌, ◌-◌, ◌*◌, ◌/◌, ◌%◌, ◌^◌, ◌≤◌, ◌<◌, ◌∷◌, ◌++◌, ◌≡◌, ◌⊎◌, arith, Text, codes,
  ◌==◌, ltb, if◌then◌else◌, show, Bool-cases, inl, inr,
}

-- a / b rounded to the nearest integer, a tie to the even one
unfoldable pub round_even : ℕ → ℕ → ℕ
round_even a b =
    let q = a / b in
    let r = a % b in
    if ltb (2 * r) b then q else if ltb b (2 * r) then q + 1 else if q % 2 == 0 then q else q + 1

-- the e of the highest power 2 ^ e that is at most k, for 0 < k; k rounds are enough
log2_from : ℕ → ℕ → ℕ
log2_from zero k = 0
log2_from (suc fuel) k = let more = suc (log2_from fuel (k / 2)) in if ltb k 2 then 0 else more

-- the bits behind the point of the double nearest to points / 1000, for 1000 ≤ points: its
-- significand has 53 bits
unfoldable pub fraction_bits : ℕ → ℕ
unfolding log2_from
fraction_bits points = 52 - log2_from 64 (points / 1000)

-- `points / 1000` is this integer over 2 ^ fraction_bits
unfoldable pub thousandth : ℕ → ℕ
thousandth points = round_even (points * 2 ^ fraction_bits points) 1000

-- `(points / 1000).toFixed(1)` in tenths: the integer n for which n / 10 is nearest to the double, the
-- larger one of two
unfoldable pub tenths : ℕ → ℕ
unfolding thousandth
tenths points = let unit = 2 ^ fraction_bits points in (20 * thousandth points + unit) / (2 * unit)

-- the digits of n / 10 with their point, `.replace(/\.0$/, "")`, and the unit
unfoldable pub tenths_label : ℕ → Text
tenths_label n =
    if n % 10 == 0
    then show (n / 10) ++ codes "k"
    else show (n / 10) ++ (b'.' ∷ (b'0' + n % 10) ∷ codes "k")

unfoldable pub format_score : ℕ → Text
unfolding tenths tenths_label
format_score points = if ltb points 1000 then codes "< 1k" else tenths_label (tenths points)

round_even_bounds :
    (a : ℕ)
    → (2 * a ≤ 2 * (1000 * round_even a 1000) + 1000)
      × (2 * (1000 * round_even a 1000) ≤ 2 * a + 1000)
unfolding round_even
round_even_bounds a = ground arith

log2_from-le : (fuel k : ℕ) (b : ℕ) → k < 2 ^ suc b → log2_from fuel k ≤ b
unfolding log2_from
log2_from-le zero k b h = omega arith
log2_from-le (suc fuel) k zero h = ground arith
log2_from-le (suc fuel) k (suc b) h =
    ground (arith, log2_from-le fuel (k / 2) b (omega (arith, pow-suc 2 (suc b))))

pow_ge : (d : ℕ) → 512 ≤ 2 ^ (d + 9)
pow_ge zero = omega arith
pow_ge (suc d) =
    let e : suc d + 9 ≡ suc (d + 9) = omega arith in
    rw e (omega (arith, pow_ge d, pow-suc 2 (d + 9)))

-- the quotient below 2 ^ 44 leaves at least nine bits for the fraction
fraction_unit-ge : (points : ℕ) → points < 2 ^ 53 → 512 ≤ 2 ^ fraction_bits points
unfolding fraction_bits
fraction_unit-ge points h =
    let l = log2_from-le 64 (points / 1000) 43 (omega arith) in
    let e : 52 - log2_from 64 (points / 1000) ≡ (52 - log2_from 64 (points / 1000) - 9) + 9 =
      omega arith in
    rw e (pow_ge (52 - log2_from 64 (points / 1000) - 9))

-- Both roundings together: `p` points, `u` for 2 ^ fraction_bits, `m` the rounded quotient, and
-- `n` with the remainder `r` of the second rounding.
module _ (u p m n r : ℕ) (hu : 512 ≤ u) (e : 2 * u * n + r ≡ 20 * m + u) (hr : r < 2 * u) where
  not_above : 2 * (1000 * m) ≤ 2 * (p * u) + 1000 → ¬ (p + 50 < 100 * n)
  not_above k h =
      let scaled : (p + 51) * u ≤ 100 * n * u = mul-le-mul (omega arith) (le_refl u) in omega arith

  not_below : 2 * (p * u) ≤ 2 * (1000 * m) + 1000 → ¬ (100 * n + 50 < p)
  not_below k h =
      let scaled : (100 * n + 51) * u ≤ p * u = mul-le-mul (omega arith) (le_refl u) in omega arith

tenths_nearest :
    (points : ℕ)
    → points < 2 ^ 53
    → (100 * tenths points ≤ points + 50) × (points ≤ 100 * tenths points + 50)
unfolding tenths
tenths_nearest points h =
    let u = 2 ^ fraction_bits points in
    let m = thousandth points in
    let hu = fraction_unit-ge points h in
    let b = round_even_bounds (points * u) in
    let e = div-add-mod (20 * m + u) (2 * u) in
    let hr = mod-lt (20 * m + u) {m = 2 * u} (omega arith) in
    (
      not_lt_le (not_above u points m (tenths points) ((20 * m + u) % (2 * u)) hu e hr b.1),
      not_lt_le (not_below u points m (tenths points) ((20 * m + u) % (2 * u)) hu e hr b.0),
    )
  where
    not_lt_le : {a b : ℕ} → ¬ (a < b) → b ≤ a
    not_lt_le h = omega arith

-- Below 1000 points the label says "< 1k", and no more. From 1000 points up to 2 ^ 53 it shows a tenth
-- of a thousand that is nearest to the points: the two roundings never pick a farther one.
pub format_score_nearest :
    (points : ℕ)
    → points < 2 ^ 53
    → ((points < 1000) × (format_score points ≡ codes "< 1k"))
      ⊎ ((n : ℕ) × (1000 ≤ points)
          × (format_score points ≡ tenths_label n)
          × (100 * n ≤ points + 50)
          × (points ≤ 100 * n + 50))
unfolding format_score
format_score_nearest points h = elim (Bool-cases (ltb points 1000)) [
  | inl e ↦ inl (ground arith, rw e)
  | inr e ↦
      let (above, below) = tenths_nearest points h in
      inr (tenths points, ground arith, rw e, above, below)
]

-- the functions above, opened together where a test runs them
unfoldable pub run_score : Unit {0}
unfolding format_score round_even fraction_bits
run_score = tt
