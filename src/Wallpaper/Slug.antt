-- ===== src/Wallpaper/Slug.antt =====
-- The parts of a file name are slugs.
use mathlib.Core.List.{reverse, reverse_aux, reverse-reverse}
use desktopcolors.Common.{
  ℕ, [], ◌∷◌, Bool, true, false, ◌||◌, ◌≡◌, refl, arith, Text, ◌==◌, All, to_lower_case, trim,
  Bool-cases, inl, inr,
}
use desktopcolors.Wallpaper.Defs.{is_alnum, dashed, strip_dashes, slug}

-- a lower-case letter, a digit or a dash
abbrev pub is_slug_unit : ℕ → Bool
is_slug_unit c = is_alnum c || c == b'-'

-- no dash in front
abbrev pub StartsPlain : Text → Type 0
StartsPlain [] = Unit
StartsPlain (c ∷ s) = (c == b'-') ≡ false

dashed-All : (inside : Bool) (s : Text) → All (λ c. is_slug_unit c ≡ true) (dashed inside s)
unfolding dashed
dashed-All inside [] = tt
dashed-All inside (c ∷ s) = elim (Bool-cases (is_alnum c)) [
  | inl e ↦ rw e (ground (arith, e), dashed-All false s)
  | inr e ↦ rw e (elim (Bool-cases inside) [
    | inl k ↦ rw k (dashed-All true s)
    | inr k ↦ rw k (refl, dashed-All true s)
  ])
]

strip_dashes-All :
    (s : Text)
    → All (λ c. is_slug_unit c ≡ true) s
    → All (λ c. is_slug_unit c ≡ true) (strip_dashes s)
unfolding strip_dashes
strip_dashes-All [] h = tt
strip_dashes-All (c ∷ s) h = elim (Bool-cases (c == b'-')) [
  | inl e ↦ rw e (strip_dashes-All s h.1)
  | inr e ↦ rw e h
]

strip_dashes-StartsPlain : (s : Text) → StartsPlain (strip_dashes s)
unfolding strip_dashes
strip_dashes-StartsPlain [] = tt
strip_dashes-StartsPlain (c ∷ s) = elim (Bool-cases (c == b'-')) [
  | inl e ↦ rw e (strip_dashes-StartsPlain s)
  | inr e ↦ rw e e
]

reverse_aux-All :
    (s t : Text)
    → All (λ c. is_slug_unit c ≡ true) s
    → All (λ c. is_slug_unit c ≡ true) t
    → All (λ c. is_slug_unit c ≡ true) (reverse_aux s t)
reverse_aux-All [] t h k = k
reverse_aux-All (c ∷ s) t h k = reverse_aux-All s (c ∷ t) h.1 (h.0, k)

-- A part of a file name is made of lower-case letters, digits and dashes, whatever the text, and does
-- not end with a dash.
pub slug-IsSlug :
    (s : Text) → All (λ c. is_slug_unit c ≡ true) (slug s) × StartsPlain (reverse (slug s))
unfolding slug
slug-IsSlug s =
    let d = dashed false (trim (to_lower_case s)) in
    let front = strip_dashes-All d (dashed-All false (trim (to_lower_case s))) in
    let back =
      strip_dashes-All (reverse (strip_dashes d)) (reverse_aux-All (strip_dashes d) [] front tt) in
    (
      reverse_aux-All (strip_dashes (reverse (strip_dashes d))) [] back tt,
      rw reverse-reverse (strip_dashes-StartsPlain (reverse (strip_dashes d))),
    )
