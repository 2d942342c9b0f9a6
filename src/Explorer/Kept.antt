-- ===== src/Explorer/Kept.antt =====
-- The lists of islands/Colors.tsx hold colors of the site only, and its selection names a system once.
use desktopcolors.Common.{
  ℕ, zero, suc, ◌<◌, List, [], ◌∷◌, map, Option, none, some, Bool, true, false, not, ◌&&◌, ◌≡◌,
  refl, sym, subst, arith, Text, text_eq, filter, all, is_empty, get_elem?, length, All,
  All-filter_of, sort-All, Dict, keys, delete, Distinct, put-Distinct, Bool-cases, inl, inr,
}
use desktopcolors.Color.Floats.{Floats}
use desktopcolors.Color.Types.{FamilyKey}
use desktopcolors.ColorCatalog.Defs.{
  ColorEntry, Def, Band, BandOptions, make_band, band_is_nonempty, group_into_bands, in_family,
  family_defs, before, rank_colors,
}
use desktopcolors.ColorCatalog.Platforms.{Platform, OsFamily}
use desktopcolors.ColorCatalog.Filters.{OsSelection}
use desktopcolors.ColorCatalog.Ranking.{rank_from-CountsUp}
use desktopcolors.Explorer.Defs.{
  Explorer, Grouping, hue, flat, is_on, toggle_slug, set_slugs, toggle_os_fam, matched, kept,
  band_options, bands_for, bands, ranking_for, ranking,
}
use desktopcolors.Explorer.Toggles.{enabled_slugs}
use desktopcolors.Explorer.Panel.{panel_index}
use desktopcolors.Explorer.Machine.{
  placed, opened, ranked, is_exp, at_row, open_in_band, open_ranked,
}
use desktopcolors.Page.Bounds.{find_index-lt}

pub All-get_elem? {ℓ} :
    {A : Type ℓ} (P : A → Type 0) (xs : List A) (i : ℕ) (x : A)
    → All P xs
    → get_elem? xs i ≡ some x
    → P x × (i < length xs)
All-get_elem? P [] i x h e = cc e
All-get_elem? P (y ∷ ys) zero x h e =
    let same : y ≡ x = ground arith in (subst P same h.0, omega arith)
All-get_elem? P (y ∷ ys) (suc i) x h e =
    let (p, lt) = All-get_elem? P ys i x h.1 e in (p, omega (arith, lt))

All-keys-delete :
    {V : Type 0} (P : Text → Type 0) (k : Text) (d : Dict V)
    → All P (keys d)
    → All P (keys (delete k d))
unfolding delete
All-keys-delete P k [] h = tt
All-keys-delete P k ((j, w) ∷ d) h = elim (Bool-cases (text_eq j k)) [
  | inl e ↦ rw e (All-keys-delete P k d h.1)
  | inr e ↦ rw e (h.0, All-keys-delete P k d h.1)
]

delete-Distinct :
    {V : Type 0} (k : Text) (d : Dict V) → Distinct (keys d) → Distinct (keys (delete k d))
unfolding delete
delete-Distinct k [] h = tt
delete-Distinct k ((j, w) ∷ d) h = elim (Bool-cases (text_eq j k)) [
  | inl e ↦ rw e (delete-Distinct k d h.1)
  | inr e ↦ rw e (All-keys-delete _ k d h.0, delete-Distinct k d h.1)
]

pub toggle_slug-Distinct :
    (slug : Text) (sel : OsSelection) → Distinct (keys sel) → Distinct (keys (toggle_slug slug sel))
unfolding toggle_slug
toggle_slug-Distinct slug sel h = elim (Bool-cases (is_on slug sel)) [
  | inl e ↦ rw (e, toggle_slug) (delete-Distinct slug sel h)
  | inr e ↦ rw (e, toggle_slug) (put-Distinct slug tt sel h)
]

set_slugs-Distinct :
    (all_on : Bool) (xs : List Text) (sel : OsSelection)
    → Distinct (keys sel)
    → Distinct (keys (set_slugs all_on xs sel))
unfolding set_slugs
set_slugs-Distinct b [] sel h = h
set_slugs-Distinct true (x ∷ xs) sel h = set_slugs-Distinct true xs _ (delete-Distinct x sel h)
set_slugs-Distinct false (x ∷ xs) sel h = set_slugs-Distinct false xs _ (put-Distinct x tt sel h)

module _ (fl : Floats) (d : Dict (List Platform)) (colors : List (ColorEntry fl)) where
  pub toggle_os_fam-Distinct :
      (f : OsFamily) (st : Explorer fl)
      → Distinct (keys st.os_sel)
      → Distinct (keys (toggle_os_fam fl d colors f st).os_sel)
  unfolding toggle_os_fam
  toggle_os_fam-Distinct f st h =
      let slugs = enabled_slugs fl d colors f st in
      set_slugs-Distinct (not (is_empty slugs) && all (λ x. is_on x st.os_sel) slugs) slugs
        st.os_sel h

module _ (fl : Floats) (d : Dict (List Platform)) (colors : List (ColorEntry fl))
    (P : ColorEntry fl → Type 0) where
  make_band-All :
      (cs : List (ColorEntry fl)) (opts : BandOptions fl) (defs : List (Def FamilyKey))
      → All P cs
      → All (λ b. All P b.colors) (map (make_band fl cs opts) defs)
  unfolding make_band
  make_band-All cs opts [] h = tt
  make_band-All cs opts (f ∷ fs) h =
      (sort-All P (before fl opts.sort_by) _ (All-filter_of P _ cs h), make_band-All cs opts fs h)

  kept-All : (st : Explorer fl) → All P colors → All P (kept fl d colors st)
  unfolding kept matched
  kept-All st h = All-filter_of P _ _ (All-filter_of P _ colors h)

  bands-All :
      (g : Grouping) (st : Explorer fl)
      → All P colors
      → All (λ b. All P b.colors) (bands_for fl d colors g st)
  unfolding group_into_bands
  bands-All flat st h = tt
  bands-All hue st h =
      let opts = band_options fl d colors st in
      let defs = filter (λ f. in_family st.family f.key) family_defs in
      All-filter_of (λ b. All P b.colors) (band_is_nonempty fl)
        (map (make_band fl (kept fl d colors st) opts) defs)
        (make_band-All (kept fl d colors st) opts defs (kept-All st h))

  ranking-All :
      (g : Grouping) (st : Explorer fl)
      → All P colors
      → All P (map (λ r. r.color) (ranking_for fl d colors g st))
  unfolding rank_colors
  ranking-All hue st h = tt
  ranking-All flat st h = subst (All P) (sym (rank_from-CountsUp fl _ 0 _).0) (
      sort-All P (before fl st.sort_by) _
        (All-filter_of P _ _ (All-filter_of P _ _ (kept-All st h))))

  -- a list with a place in it
  abbrev pub IsPlace : List (ColorEntry fl) × ℕ → Type 0
  IsPlace (list, idx) = (idx < length list) × All P list

  abbrev pub IsPlaceOf : Option (List (ColorEntry fl) × ℕ) → Type 0
  IsPlaceOf none = Unit
  IsPlaceOf (some place) = IsPlace place

  panel_index-lt :
      (exp : Option Text) (cs : List (ColorEntry fl)) (i : ℕ)
      → panel_index fl exp cs ≡ some i
      → i < length cs
  unfolding panel_index
  panel_index-lt none cs i e = cc e
  panel_index-lt (some []) cs i e = cc e
  panel_index-lt (some (h ∷ t)) cs i e = find_index-lt _ cs i e

  placed-IsPlaceOf :
      (cs : List (ColorEntry fl)) (o : Option ℕ)
      → ((i : ℕ) → o ≡ some i → i < length cs)
      → All P cs
      → IsPlaceOf (placed fl d colors cs o)
  placed-IsPlaceOf cs none lt h = tt
  placed-IsPlaceOf cs (some i) lt h = (lt i refl, h)

  opened-IsPlaceOf :
      (exp : Option Text) (i : ℕ) (bs : List (Band fl)) (o : Option (Band fl))
      → All (λ b. All P b.colors) bs
      → get_elem? bs i ≡ o
      → IsPlaceOf (opened fl d colors exp o)
  opened-IsPlaceOf exp i bs none h e = tt
  opened-IsPlaceOf exp i bs (some b) h e =
      placed-IsPlaceOf b.colors (panel_index fl exp b.colors) (panel_index-lt exp b.colors)
        (All-get_elem? (λ b. All P b.colors) bs i b h e).0

  -- what a box of a band opens is a place of a list of the site's colors
  pub open_in_band-IsPlaceOf :
      (i : ℕ) (st : Explorer fl) → All P colors → IsPlaceOf (open_in_band fl d colors i st)
  unfolding open_in_band bands
  open_in_band-IsPlaceOf i st h =
      opened-IsPlaceOf st.exp i (bands fl d colors st) _ (bands-All st.group st h) refl

  at_row-IsPlaceOf :
      (exp : Option Text) (i : ℕ) (cs : List (ColorEntry fl)) (o : Option (ColorEntry fl))
      → All P cs
      → get_elem? cs i ≡ o
      → IsPlaceOf (at_row fl d colors exp cs i o)
  at_row-IsPlaceOf exp i cs none h e = tt
  at_row-IsPlaceOf exp i cs (some c) h e = elim (Bool-cases (is_exp fl d colors exp c.hex)) [
    | inl f ↦ rw (f, at_row) ((All-get_elem? P cs i c h e).1, h)
    | inr f ↦ rw (f, at_row) tt
  ]

  -- and what a row of the ranking opens
  pub open_ranked-IsPlaceOf :
      (i : ℕ) (st : Explorer fl) → All P colors → IsPlaceOf (open_ranked fl d colors i st)
  unfolding open_ranked ranking
  open_ranked-IsPlaceOf i st h =
      at_row-IsPlaceOf st.exp i (ranked fl d colors st) _ (ranking-All st.group st h) refl
