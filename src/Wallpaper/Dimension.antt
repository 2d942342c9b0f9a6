-- ===== src/Wallpaper/Dimension.antt =====
-- The dimension that is typed in.
use desktopcolors.Common.{
  ℕ, ◌≤◌, none, some, Bool, true, false, not, ◌&&◌, ◌||◌, ◌≡◌, ◌∙◌, refl, subst, arith, Text, show,
  is_digit, digits_value, trim, trim-digits, digits_value-show, is_digits-show, is_empty-show,
  is_empty, all, if◌then◌else◌, ltb, leb, Bool-cases, inl, inr,
}
use desktopcolors.Wallpaper.Defs.{min_dim, max_dim, parse_dimension}

in_range :
    (n : ℕ)
    → (if ltb n 1 || ltb 10000 n then none else some n)
      ≡ (if leb 1 n && leb n 10000 then some n else none)
in_range n = ground arith

in_bounds :
    (m n : ℕ)
    → (if ltb m 1 || ltb 10000 m then none else some m) ≡ some n
    → (1 ≤ n) × (n ≤ 10000) × (m ≡ n)
in_bounds m n h = elim (Bool-cases (ltb m 1 || ltb 10000 m)) [
  | inl e ↦ cc (rw e at h)
  | inr e ↦
      let same : m ≡ n = cc (rw e at h) in
      subst (λ k. (1 ≤ k) × (k ≤ 10000) × (m ≡ k)) same (ground (arith, e), ground (arith, e), refl)
]

accepted :
    (e d : Bool) (m n : ℕ)
    → (if e || not d then none else (if ltb m 1 || ltb 10000 m then none else some m)) ≡ some n
    → (1 ≤ n) × (n ≤ 10000) × (d ≡ true) × (m ≡ n)
accepted true d m n h = cc h
accepted false false m n h = cc h
accepted false true m n h = let (lo, hi, same) = in_bounds m n h in (lo, hi, refl, same)

-- what the digits of a number give
parse_dimension-show :
    (n : ℕ) → parse_dimension (show n) ≡ (if leb min_dim n && leb n max_dim then some n else none)
unfolding parse_dimension
parse_dimension-show n =
    rw
      (
        trim-digits (show n) (is_digits-show n),
        is_empty-show n,
        is_digits-show n,
        digits_value-show n,
      )
      (in_range n)

accepted_again : (n : ℕ) → min_dim ≤ n → n ≤ max_dim → parse_dimension (show n) ≡ some n
accepted_again n lo hi = parse_dimension-show n ∙ ground arith

-- Whatever text is typed in, a dimension that is accepted is from 1 to 10000, and is the value of the
-- text without the white space around it, which is all digits; its own digits are accepted as the same.
pub parse_dimension_bounds :
    (raw : Text) (n : ℕ)
    → parse_dimension raw ≡ some n
    → (min_dim ≤ n)
      × (n ≤ max_dim)
      × (all is_digit (trim raw) ≡ true)
      × (digits_value 0 (trim raw) ≡ n)
      × (parse_dimension (show n) ≡ some n)
unfolding parse_dimension
parse_dimension_bounds raw n h =
    let (lo, hi, digits, same) =
      accepted (is_empty (trim raw)) (all is_digit (trim raw)) (digits_value 0 (trim raw)) n h in
    (lo, hi, digits, same, accepted_again n lo hi)
