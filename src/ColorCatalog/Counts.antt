-- ===== src/ColorCatalog/Counts.antt =====
-- The counts on the facet pills are the sizes of the facets.
use desktopcolors.Common.{ℕ, ◌+◌, List, [], ◌∷◌, ◌≡◌, ◌∙◌, arith, filter, length}
use desktopcolors.Color.Floats.{Floats}
use desktopcolors.Color.Types.{
  FamilyKey, red, orange, yellow, green, teal, blue, purple, pink, achromatic, ColorTypeKey,
}
use desktopcolors.ColorCatalog.Defs.{
  ColorEntry, same_family, same_type, bump, count_families, family_counts, count_each, count_types,
  type_counts, Counts,
}

-- the sum over all nine families
abbrev pub total : Counts FamilyKey → ℕ
total n = n red + n orange + n yellow + n green + n teal + n blue + n purple + n pink + n achromatic

-- how often a type is listed
abbrev pub listings : {fl : Floats} → ColorTypeKey → List (ColorEntry fl) → ℕ
listings k [] = 0
listings k (c ∷ cs) = length (filter (same_type k) c.types) + listings k cs

module _ (fl : Floats) where
  count_families_lem :
      (cs : List (ColorEntry fl)) (out : Counts FamilyKey) (k : FamilyKey)
      → count_families fl cs out k ≡ out k + length (filter (λ c. same_family k c.family) cs)
  unfolding count_families
  count_families_lem [] out k = omega arith
  count_families_lem (c ∷ cs) out k =
      count_families_lem cs (bump fl same_family c.family out) k ∙ ground arith

  total-bump :
      (f : FamilyKey) (out : Counts FamilyKey) → total (bump fl same_family f out) ≡ total out + 1
  total-bump red out = omega arith
  total-bump orange out = omega arith
  total-bump yellow out = omega arith
  total-bump green out = omega arith
  total-bump teal out = omega arith
  total-bump blue out = omega arith
  total-bump purple out = omega arith
  total-bump pink out = omega arith
  total-bump achromatic out = omega arith

  total-count_families :
      (cs : List (ColorEntry fl)) (out : Counts FamilyKey)
      → total (count_families fl cs out) ≡ total out + length cs
  unfolding count_families
  total-count_families [] out = omega arith
  total-count_families (c ∷ cs) out =
      let ih = total-count_families cs (bump fl same_family c.family out) in
      omega (arith, ih, total-bump c.family out)

  count_each_lem :
      (ts : List ColorTypeKey) (out : Counts ColorTypeKey) (k : ColorTypeKey)
      → count_each fl ts out k ≡ out k + length (filter (same_type k) ts)
  unfolding count_each
  count_each_lem [] out k = omega arith
  count_each_lem (t ∷ ts) out k = count_each_lem ts (bump fl same_type t out) k ∙ ground arith

  count_types_lem :
      (cs : List (ColorEntry fl)) (out : Counts ColorTypeKey) (k : ColorTypeKey)
      → count_types fl cs out k ≡ out k + listings k cs
  unfolding count_types
  count_types_lem [] out k = omega arith
  count_types_lem (c ∷ cs) out k =
      let ih = count_types_lem cs (count_each fl c.types out) k in
      omega (arith, ih, count_each_lem c.types out k)

  -- Each family's pill counts the colors of the family, the nine counts add up to all colors, and each
  -- type's pill counts how often the colors list the type.
  pub facet_counts_lem :
      (colors : List (ColorEntry fl))
      → ((k : FamilyKey)
          → family_counts fl colors k ≡ length (filter (λ c. same_family k c.family) colors))
        × (total (family_counts fl colors) ≡ length colors)
        × ((k : ColorTypeKey) → type_counts fl colors k ≡ listings k colors)
  unfolding family_counts type_counts
  facet_counts_lem colors = (
    λ k. count_families_lem colors (λ j. 0) k ∙ omega arith,
    total-count_families colors (λ j. 0) ∙ omega arith,
    λ k. count_types_lem colors (λ j. 0) k ∙ omega arith,
  )
