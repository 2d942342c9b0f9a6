-- ===== src/Page/Bounds.antt =====
-- The indices that islands/OsDetail.tsx selects are within its list of colors.
use desktopcolors.Common.{
  ℕ, ◌<◌, List, [], ◌∷◌, Option, none, some, Bool, ◌≡◌, inl, inr, arith, Text, length, get_or,
  Bool-cases, Option-cases,
}
use desktopcolors.Catalog.{ColorView}
use desktopcolors.Explorer.Defs.{Step, forward, back, step_index}
use desktopcolors.Page.Defs.{idx_of_hex, find_index, default_idx}

pub find_index-lt {ℓ} :
    {A : Type ℓ} (p : A → Bool) (xs : List A) (i : ℕ) → find_index p xs ≡ some i → i < length xs
unfolding find_index
find_index-lt p [] i h = cc h
find_index-lt p (x ∷ xs) i h = elim (Bool-cases (p x)) [
  | inl e ↦ ground arith
  | inr e ↦ elim (Option-cases (find_index p xs)) [
    | inl n ↦ ground arith
    | inr (j, f) ↦ ground (arith, find_index-lt p xs j f)
  ]
]

found-lt {ℓ} :
    {A : Type ℓ} (p : A → Bool) (xs : List A) (d : ℕ)
    → d < length xs
    → get_or (find_index p xs) d < length xs
found-lt p xs d h = elim (Option-cases (find_index p xs)) [
  | inl e ↦ rw e h
  | inr (i, e) ↦ rw e (find_index-lt p xs i e)
]

-- the color that a page starts with is one of its colors
pub idx_of_hex-lt :
    (colors : List ColorView) (hex : Option Text)
    → 0 < length colors
    → idx_of_hex colors hex < length colors
unfolding idx_of_hex default_idx
idx_of_hex-lt colors none h = found-lt _ colors 0 h
idx_of_hex-lt colors (some []) h = found-lt _ colors 0 h
idx_of_hex-lt colors (some (c ∷ s)) h = found-lt _ colors _ (found-lt _ colors 0 h)

pub step_index-lt : (s : Step) (i n : ℕ) → 0 < n → step_index s i n < n
unfolding step_index
step_index-lt forward i n h = grind arith
step_index-lt back i n h = grind arith
