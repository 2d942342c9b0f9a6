-- ===== src/ColorCatalog/Bands.antt =====
-- What the bands and the ranking of the color explorer list.
use mathlib.Core.List.{Perm}
use desktopcolors.Common.{
  ℕ, ◌+◌, List, [], ◌∷◌, map, Option, none, some, Bool, true, false, ◌&&◌, ◌≡◌, refl, ap, ◌∙◌,
  arith, if◌then◌else◌, filter, length, is_empty, sort, sort-perm, IsSorted, length-sort, All,
  Bool-cases, inl, inr,
}
use desktopcolors.Color.Floats.{Floats, IsOrdered}
use desktopcolors.ColorCatalog.Order.{HasNumbers, sort-before}
use desktopcolors.Color.Types.{
  FamilyKey, red, orange, yellow, green, teal, blue, purple, pink, achromatic,
}
use desktopcolors.ColorCatalog.Defs.{
  ColorEntry, same_family, in_family, family_defs, Def, before, Band, BandOptions, matches,
  make_band, band_is_nonempty, group_into_bands,
}

empty-length {ℓ} : {A : Type ℓ} (xs : List A) → is_empty xs ≡ true → length xs ≡ 0
empty-length [] h = refl
empty-length (x ∷ xs) h = cc h

same_family-in_family :
    (o : Option FamilyKey) (f k : FamilyKey)
    → same_family f k ≡ true
    → in_family o f ≡ true
    → in_family o k ≡ true
same_family-in_family none f k h e = refl
same_family-in_family (some g) f k h e = ground (arith, h, e)

-- how many of the families are `f`
abbrev times : FamilyKey → List (Def FamilyKey) → ℕ
times f [] = 0
times f (d ∷ ds) = (if same_family f d.key then 1 else 0) + times f ds

times_once : (f : FamilyKey) → times f family_defs ≡ 1
times_once red = refl
times_once orange = refl
times_once yellow = refl
times_once green = refl
times_once teal = refl
times_once blue = refl
times_once purple = refl
times_once pink = refl
times_once achromatic = refl

count_step {ℓ} :
    (m : Bool) (t : ℕ)
    → t ≡ 1
    → {A : Type ℓ} (x : A) (xs : List A)
    → (if m then t else 0) + length xs ≡ length (if m then x ∷ xs else xs)
count_step true t e x xs = ap (λ n. n + length xs) e ∙ omega arith
count_step false t e x xs = omega arith

keep_step :
    (s m : Bool) (h t : ℕ)
    → h ≡ (if m then t else 0)
    → (if s && m then 1 else 0) + h ≡ (if m then (if s then 1 else 0) + t else 0)
keep_step true true h t e = omega (arith, e)
keep_step true false h t e = omega (arith, e)
keep_step false true h t e = omega (arith, e)
keep_step false false h t e = omega (arith, e)

skip_step :
    (s m : Bool) (h t : ℕ)
    → (s && m) ≡ false
    → h ≡ (if m then t else 0)
    → h ≡ (if m then (if s then 1 else 0) + t else 0)
skip_step true true h t f e = cc f
skip_step true false h t f e = omega (arith, e)
skip_step false true h t f e = omega (arith, e)
skip_step false false h t f e = omega (arith, e)

module _ (fl : Floats) where
  -- how many colors the bands list
  abbrev pub band_total : List (Band fl) → ℕ
  band_total [] = 0
  band_total (b ∷ bs) = length b.colors + band_total bs

  -- the bands without the empty ones list as many
  band_total-filter :
      (bs : List (Band fl)) → band_total (filter (band_is_nonempty fl) bs) ≡ band_total bs
  band_total-filter [] = refl
  band_total-filter (b ∷ bs) = elim (Bool-cases (is_empty b.colors)) [
    | inl e ↦ rw e (omega (arith, empty-length b.colors e, band_total-filter bs))
    | inr e ↦ rw e (omega (arith, band_total-filter bs))
  ]

  module _ (opts : BandOptions fl) where
    abbrev belongs : Def FamilyKey → ColorEntry fl → Bool
    belongs d c = same_family c.family d.key && matches fl opts c

    -- the sizes of the bands for the families `ds`
    abbrev sizes : List (Def FamilyKey) → List (ColorEntry fl) → ℕ
    sizes [] colors = 0
    sizes (d ∷ ds) colors = length (filter (belongs d) colors) + sizes ds colors

    -- the bands of one color
    abbrev hits : ColorEntry fl → List (Def FamilyKey) → ℕ
    hits c [] = 0
    hits c (d ∷ ds) = (if belongs d c then 1 else 0) + hits c ds

    sizes-nil : (ds : List (Def FamilyKey)) → sizes ds [] ≡ 0
    sizes-nil [] = refl
    sizes-nil (d ∷ ds) = omega (arith, sizes-nil ds)

    sizes-cons :
        (c : ColorEntry fl) (cs : List (ColorEntry fl)) (ds : List (Def FamilyKey))
        → sizes ds (c ∷ cs) ≡ hits c ds + sizes ds cs
    sizes-cons c cs [] = refl
    sizes-cons c cs (d ∷ ds) = ground (arith, sizes-cons c cs ds)

    band_total-sizes :
        (colors : List (ColorEntry fl)) (ds : List (Def FamilyKey))
        → band_total (map (make_band fl colors opts) ds) ≡ sizes ds colors
    unfolding make_band
    band_total-sizes colors [] = refl
    band_total-sizes colors (d ∷ ds) = omega (
      arith,
      length-sort (before fl opts.sort_by) (filter (belongs d) colors),
      band_total-sizes colors ds,
    )

    belongs-in_family :
        (d : Def FamilyKey) (c : ColorEntry fl)
        → belongs d c ≡ true
        → in_family opts.family d.key ≡ true
    unfolding matches
    belongs-in_family d c h = elim (Bool-cases (same_family c.family d.key)) [
      | inr e ↦ ground (arith, e, h)
      | inl e ↦ elim (Bool-cases (in_family opts.family c.family)) [
        | inl k ↦ same_family-in_family opts.family c.family d.key e k
        | inr k ↦ ground (arith, k, e, h)
      ]
    ]

    outside :
        (d : Def FamilyKey) (c : ColorEntry fl)
        → in_family opts.family d.key ≡ false
        → belongs d c ≡ false
    outside d c e = elim (Bool-cases (belongs d c)) [
      | inl h ↦ cc (e, belongs-in_family d c h)
      | inr h ↦ h
    ]

    hits-filter :
        (c : ColorEntry fl) (ds : List (Def FamilyKey))
        → hits c (filter (λ d. in_family opts.family d.key) ds)
          ≡ (if matches fl opts c then times c.family ds else 0)
    hits-filter c [] = ground arith
    hits-filter c (d ∷ ds) = elim (Bool-cases (in_family opts.family d.key)) [
      | inl e ↦ rw e (
          keep_step (same_family c.family d.key) (matches fl opts c) _ (times c.family ds)
            (hits-filter c ds))
      | inr e ↦ rw e (
          skip_step (same_family c.family d.key) (matches fl opts c) _ (times c.family ds)
            (outside d c e) (hits-filter c ds))
    ]

    sizes-matches :
        (colors : List (ColorEntry fl))
        → sizes (filter (λ d. in_family opts.family d.key) family_defs) colors
          ≡ length (filter (matches fl opts) colors)
    sizes-matches [] = sizes-nil (filter (λ d. in_family opts.family d.key) family_defs)
    sizes-matches (c ∷ cs) =
        let ds = filter (λ d. in_family opts.family d.key) family_defs in
        sizes-cons c cs ds
        ∙ (λ i. hits-filter c family_defs i + sizes-matches cs i)
        ∙ count_step (matches fl opts c) (times c.family family_defs) (times_once c.family) c
            (filter (matches fl opts) cs)

  -- what a band promises: it is not empty, and lists the colors of its family that the filter keeps,
  -- sorted
  abbrev pub IsBand : List (ColorEntry fl) → BandOptions fl → Band fl → Type 0
  IsBand colors opts b =
      (is_empty b.colors ≡ false)
      × Perm b.colors (filter (λ c. same_family c.family b.key && matches fl opts c) colors)
      × IsSorted (before fl opts.sort_by) b.colors

  bands_of :
      (o : IsOrdered fl) (colors : List (ColorEntry fl)) (opts : BandOptions fl)
      (ds : List (Def FamilyKey))
      → All HasNumbers colors
      → All (IsBand colors opts) (filter (band_is_nonempty fl) (map (make_band fl colors opts) ds))
  unfolding make_band
  bands_of o colors opts [] h = tt
  bands_of o colors opts (d ∷ ds) h =
      let of_family = λ (c : ColorEntry fl). same_family c.family d.key && matches fl opts c in
      let kept = filter of_family colors in
      elim (Bool-cases (is_empty (sort (before fl opts.sort_by) kept))) [
        | inl e ↦ rw e (bands_of o colors opts ds h)
        | inr e ↦ rw e (
          (
            e,
            sort-perm (before fl opts.sort_by) kept,
            sort-before fl o opts.sort_by of_family colors h,
          ),
          bands_of o colors opts ds h,
        )
      ]

  -- the bands together list as many colors as the filter keeps
  pub band_total-group_into_bands :
      (colors : List (ColorEntry fl)) (opts : BandOptions fl)
      → band_total (group_into_bands fl colors opts) ≡ length (filter (matches fl opts) colors)
  unfolding group_into_bands
  band_total-group_into_bands colors opts =
      let ds = filter (λ d. in_family opts.family d.key) family_defs in
      band_total-filter (map (make_band fl colors opts) ds)
      ∙ band_total-sizes opts colors ds
      ∙ sizes-matches opts colors

  -- Where the hues and lightnesses are numbers, each band that is shown is not empty and lists the colors of
  -- its family that the filter keeps, in the order that is chosen; and the bands together list as
  -- many colors as the filter keeps: each is in one band.
  pub group_into_bands_lem :
      (o : IsOrdered fl) (colors : List (ColorEntry fl)) (opts : BandOptions fl)
      → All HasNumbers colors
      → All (IsBand colors opts) (group_into_bands fl colors opts)
        × (band_total (group_into_bands fl colors opts) ≡ length (filter (matches fl opts) colors))
  unfolding group_into_bands
  group_into_bands_lem o colors opts h = (
    bands_of o colors opts (filter (λ d. in_family opts.family d.key) family_defs) h,
    band_total-group_into_bands colors opts,
  )
