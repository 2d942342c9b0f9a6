-- ===== src/Page/Selection.antt =====
-- The color that the page selects.
use desktopcolors.Common.{
  ℕ, suc, ◌+◌, List, [], ◌∷◌, some, Bool, false, ◌≡◌, refl, ap, ◌∙◌, arith, Text, text_eq,
  to_lower_case, is_empty, find?, get_elem?, Bool-cases, inl, inr,
}
use desktopcolors.Catalog.{ColorView}
use desktopcolors.Page.Defs.{find_index, idx_of_hex, summary}

get_elem?-later {ℓ} :
    {A : Type ℓ} (x : A) (xs : List A) (i : ℕ) → get_elem? (x ∷ xs) (i + 1) ≡ get_elem? xs i
get_elem?-later x xs i = let e : i + 1 ≡ suc i = omega arith in ap (get_elem? (x ∷ xs)) e

-- what is found stands at the index that is found
find_index-find? {ℓ} :
    {A : Type ℓ} (p : A → Bool) (xs : List A) (x : A)
    → find? p xs ≡ some x
    → (i : ℕ) × (find_index p xs ≡ some i) × (get_elem? xs i ≡ some x)
unfolding find_index
find_index-find? p [] x h = cc h
find_index-find? p (y ∷ ys) x h = elim (Bool-cases (p y)) [
  | inl e ↦ (0, rw e refl, rw e at h)
  | inr e ↦
      let (i, found, at_i) = find_index-find? p ys x (rw e at h) in
      (i + 1, rw e (rw (found, find_index) refl), get_elem?-later y ys i ∙ at_i)
]

-- The page at a color's own address shows the first of the system's colors that has the hex, in whatever
-- case it is written.
pub idx_of_hex_lem :
    (colors : List ColorView) (hex : Text) (c : ColorView)
    → is_empty hex ≡ false
    → find? (λ x. text_eq (to_lower_case x.hex) (to_lower_case hex)) colors ≡ some c
    → summary colors (idx_of_hex colors (some hex)) ≡ some c
unfolding idx_of_hex summary
idx_of_hex_lem colors hex c nonempty h =
    let (i, found, at_i) =
      find_index-find? (λ x. text_eq (to_lower_case x.hex) (to_lower_case hex)) colors c h in
    rw (nonempty, found) (rw (at_i, summary) refl)
