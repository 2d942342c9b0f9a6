-- ===== src/Common/Digits.antt =====
-- Numbers written in decimal, and read back.
use Prim.Native.Nat.{ℕ, zero, suc, ◌+◌, ◌-◌, ◌*◌, ◌≤◌, ◌/◌, ◌%◌}
use mathlib.Core.Path.{◌≡◌, refl, ◌∙◌, ap}
use mathlib.Core.Logic.{inl, inr}
use mathlib.Core.Bool.{Bool, true, false, ◌&&◌}
use mathlib.Core.List.{[], ◌∷◌, reverse, reverse_aux, reverse-reverse}
use native.Mathlib.Omega.{arith}
use desktopcolors.Common.Decide.{if◌then◌else◌, leb, ltb, Bool-cases}
use desktopcolors.Common.Lists.{all, is_empty}
use desktopcolors.Common.Strings.{Text, trim, trim_start, is_space}

-- the decimal digits of `n` in front of `out`; `n` rounds are enough
show_from : ℕ → ℕ → Text → Text
show_from zero n out = out
show_from (suc fuel) n out =
    let more = show_from fuel (n / 10) ((b'0' + n % 10) ∷ out) in
    if ltb n 10 then (b'0' + n % 10) ∷ out else more

-- `${n}`
unfoldable pub show : ℕ → Text
unfolding show_from
show n = show_from (suc n) n []

unfoldable pub is_digit : ℕ → Bool
is_digit c = leb b'0' c && leb c b'9'

-- the value of a text of decimal digits behind `n`
unfoldable pub digits_value : ℕ → Text → ℕ
digits_value n [] = n
digits_value n (c ∷ s) = digits_value (10 * n + (c - b'0')) s

abbrev pub four_digits : ℕ → Text
four_digits n =
    (b'0' + (n / 10 / 10 / 10) % 10)
    ∷ (b'0' + (n / 10 / 10) % 10)
    ∷ (b'0' + (n / 10) % 10)
    ∷ (b'0' + n % 10)
    ∷ []

step :
    (fuel n : ℕ) (out : Text)
    → ltb n 10 ≡ false
    → show_from (suc fuel) n out ≡ show_from fuel (n / 10) ((b'0' + n % 10) ∷ out)
unfolding show_from
step fuel n out h = rw h refl

stop :
    (fuel n : ℕ) (out : Text) → ltb n 10 ≡ true → show_from (suc fuel) n out ≡ (b'0' + n % 10) ∷ out
unfolding show_from
stop fuel n out h = rw h refl

show-four :
    (m : ℕ)
    → 1000 ≤ suc (suc (suc m))
    → suc (suc (suc m)) ≤ 9999
    → show (suc (suc (suc m))) ≡ four_digits (suc (suc (suc m)))
unfolding show
show-four m h k =
    let n = suc (suc (suc m)) in
    step n n [] (ground (arith, h))
    ∙ step (suc (suc m)) (n / 10) _ (ground (arith, h))
    ∙ step (suc m) (n / 10 / 10) _ (ground (arith, h))
    ∙ stop m (n / 10 / 10 / 10) _ (ground (arith, k))

pub show-four_digits : (n : ℕ) → 1000 ≤ n → n ≤ 9999 → show n ≡ four_digits n
show-four_digits zero h k = absurd (omega (arith, h))
show-four_digits (suc zero) h k = absurd (omega (arith, h))
show-four_digits (suc (suc zero)) h k = absurd (omega (arith, h))
show-four_digits (suc (suc (suc m))) h k = show-four m h k

is_digit-digit : (n : ℕ) → is_digit (b'0' + n % 10) ≡ true
unfolding is_digit
is_digit-digit n = ground arith

digits_value-show_from :
    (fuel n : ℕ) (out : Text)
    → n ≤ fuel
    → digits_value 0 (show_from (suc fuel) n out) ≡ digits_value n out
unfolding digits_value
digits_value-show_from zero n out h =
    rw (stop zero n out (ground (arith, h))) (ap (λ m. digits_value m out) (omega (arith, h)))
digits_value-show_from (suc fuel) n out h = elim (Bool-cases (ltb n 10)) [
  | inl e ↦ rw (stop (suc fuel) n out e) (ap (λ m. digits_value m out) (ground (arith, e)))
  | inr e ↦ rw (step (suc fuel) n out e) (
      digits_value-show_from fuel (n / 10) ((b'0' + n % 10) ∷ out) (ground (arith, e, h))
      ∙ ap (λ m. digits_value m out) (omega arith))
]

is_digits-show_from :
    (fuel n : ℕ) (out : Text) → all is_digit out ≡ true → all is_digit (show_from fuel n out) ≡ true
unfolding show_from
is_digits-show_from zero n out h = h
is_digits-show_from (suc fuel) n out h = elim (Bool-cases (ltb n 10)) [
  | inl e ↦ rw (stop fuel n out e, is_digit-digit n) h
  | inr e ↦ rw (step fuel n out e) (is_digits-show_from fuel (n / 10) _ (rw (is_digit-digit n) h))
]

is_empty-show_from : (fuel n c : ℕ) (out : Text) → is_empty (show_from fuel n (c ∷ out)) ≡ false
unfolding show_from
is_empty-show_from zero n c out = refl
is_empty-show_from (suc fuel) n c out = elim (Bool-cases (ltb n 10)) [
  | inl e ↦ rw (stop fuel n (c ∷ out) e) refl
  | inr e ↦
      rw (step fuel n (c ∷ out) e) (is_empty-show_from fuel (n / 10) (b'0' + n % 10) (c ∷ out))
]

pub digits_value-show : (n : ℕ) → digits_value 0 (show n) ≡ n
unfolding show digits_value
digits_value-show n = digits_value-show_from n n [] (omega arith)

pub is_digits-show : (n : ℕ) → all is_digit (show n) ≡ true
unfolding show
is_digits-show n = is_digits-show_from (suc n) n [] refl

pub is_empty-show : (n : ℕ) → is_empty (show n) ≡ false
unfolding show
is_empty-show n = elim (Bool-cases (ltb n 10)) [
  | inl e ↦ rw (stop n n [] e) refl
  | inr e ↦ rw (step n n [] e) (is_empty-show_from n (n / 10) (b'0' + n % 10) [])
]

and_left : (a b : Bool) → (a && b) ≡ true → a ≡ true
and_left true b h = refl
and_left false b h = cc h

and_right : (a b : Bool) → (a && b) ≡ true → b ≡ true
and_right true b h = h
and_right false b h = cc h

is_space_of_digit : (c : ℕ) → is_digit c ≡ true → is_space c ≡ false
unfolding is_digit is_space
is_space_of_digit c h = ground (arith, h)

trim_start-digits : (s : Text) → all is_digit s ≡ true → trim_start s ≡ s
unfolding trim_start
trim_start-digits [] h = refl
trim_start-digits (c ∷ s) h =
    rw (is_space_of_digit c (and_left (is_digit c) (all is_digit s) h)) refl

is_digits-reverse_aux :
    (s t : Text)
    → all is_digit s ≡ true
    → all is_digit t ≡ true
    → all is_digit (reverse_aux s t) ≡ true
is_digits-reverse_aux [] t h k = k
is_digits-reverse_aux (c ∷ s) t h k =
    is_digits-reverse_aux s (c ∷ t) (and_right (is_digit c) (all is_digit s) h)
      (rw (and_left (is_digit c) (all is_digit s) h) k)

-- no digit is trimmed
pub trim-digits : (s : Text) → all is_digit s ≡ true → trim s ≡ s
unfolding trim
trim-digits s h =
    ap (λ t. reverse (trim_start (reverse t))) (trim_start-digits s h)
    ∙ ap reverse (trim_start-digits (reverse s) (is_digits-reverse_aux s [] h refl))
    ∙ reverse-reverse s
