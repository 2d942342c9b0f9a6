-- ===== src/Explorer/Reached.antt =====
-- What holds of the page of islands/Colors.tsx however its controls are used.
use native.Mathlib.Nat.{mod-lt}
use desktopcolors.Common.{
  ℕ, ◌<◌, List, [], ◌∷◌, Option, none, some, not, ◌&&◌, ◌||◌, ◌≡◌, ◌⊎◌, refl, arith, Text, codes,
  text_eq, get_elem?, length, All, Dict, keys, Distinct, Bool-cases, inl, inr, ◌==◌,
}
use desktopcolors.Color.Floats.{Floats}
use desktopcolors.ColorCatalog.Defs.{ColorEntry}
use desktopcolors.ColorCatalog.Platforms.{Platform}
use desktopcolors.ColorCatalog.Filters.{OsSelection}
use desktopcolors.Explorer.Defs.{
  Preview, Step, forward, back, step_index, current, stepped, color_at, step_pv, toggle_os_slug,
  toggle_os_fam, toggle_exp, set_search, toggle_family, toggle_type, toggle_defaults_only, open_pv,
}
use desktopcolors.Explorer.Machine.{
  Chosen, Page, Control, set_group, set_sort, search_for, press_defaults_only, toggle_os_panel,
  toggle_color_panel, press_family, clear_family, clear_type, press_type, set_mode, clear_systems,
  press_os_family, press_os, press_swatch, row_key, preview_in_band, download_in_band,
  preview_ranked, download_ranked, step_preview, close_preview, close_sheet, measure, first_page,
  chosen, on_row_key, measured, previewed, sheet_for, downloaded, press, Reached, opened_page,
  pressed,
}
use desktopcolors.Explorer.Kept.{
  All-get_elem?, IsPlaceOf, open_in_band-IsPlaceOf, open_ranked-IsPlaceOf, toggle_slug-Distinct,
  toggle_os_fam-Distinct,
}

step_index-lt : (s : Step) (i n : ℕ) → 0 < n → step_index s i n < n
unfolding step_index
step_index-lt forward i n h = mod-lt _ h
step_index-lt back i n h = mod-lt _ h

get_elem?-lt {ℓ} :
    {A : Type ℓ} (xs : List A) (i : ℕ) → i < length xs → (a : A) × (get_elem? xs i ≡ some a)
get_elem?-lt [] i h = absurd (omega (arith, h))
get_elem?-lt (x ∷ xs) ℕ.zero h = (x, refl)
get_elem?-lt (x ∷ xs) (ℕ.suc i) h = get_elem?-lt xs i (omega (arith, h))

module _ (fl : Floats) (d : Dict (List Platform)) (colors : List (ColorEntry fl))
    (P : ColorEntry fl → Type 0) where
  -- a preview is at a place of its list, which holds colors with the property
  abbrev pub IsShown : Option (Preview fl) → Type 0
  IsShown none = Unit
  IsShown (some v) = (v.idx < length v.list) × All P v.list

  -- the sheet is for a color with the property
  abbrev pub IsFor : Option Chosen → Type 0
  IsFor none = Unit
  IsFor (some s) = (c : ColorEntry fl) × P c × (s ≡ chosen fl c)

  pub record Sound (os_sel : OsSelection) (pv : Option (Preview fl)) (sheet : Option Chosen)
      (band_width : ℕ) : Type 0 where
    pub once : Distinct (keys os_sel)
    pub shown : IsShown pv
    pub for_color : IsFor sheet
    pub wide : 0 < band_width

  abbrev pub IsSound : Page fl → Type 0
  IsSound p = Sound p.view.os_sel p.view.pv p.sheet p.band_width

  previewed-IsSound :
      (o : Option (List (ColorEntry fl) × ℕ)) (p : Page fl)
      → IsPlaceOf fl d colors P o
      → IsSound p
      → IsSound (previewed fl d colors o p)
  unfolding open_pv
  previewed-IsSound none p place h = h
  previewed-IsSound (some (list, idx)) p place h = record {
    once = h.once;
    shown = place;
    for_color = h.for_color;
    wide = h.wide;
  }

  sheet_for-IsSound :
      (o : Option (ColorEntry fl)) (p : Page fl)
      → ((c : ColorEntry fl) → o ≡ some c → P c)
      → IsSound p
      → IsSound (sheet_for fl d colors o p)
  sheet_for-IsSound none p of_list h = h
  sheet_for-IsSound (some c) p of_list h = record {
    once = h.once;
    shown = h.shown;
    for_color = (c, of_list c refl, refl);
    wide = h.wide;
  }

  downloaded-IsSound :
      (o : Option (List (ColorEntry fl) × ℕ)) (p : Page fl)
      → IsPlaceOf fl d colors P o
      → IsSound p
      → IsSound (downloaded fl d colors o p)
  downloaded-IsSound none p place h = h
  downloaded-IsSound (some (list, idx)) p place h =
      sheet_for-IsSound (get_elem? list idx) p (λ c e. (All-get_elem? P list idx c place.1 e).0) h

  stepped-IsShown : (s : Step) (o : Option (Preview fl)) → IsShown o → IsShown (stepped fl s o)
  stepped-IsShown s none h = tt
  stepped-IsShown s (some v) h = (step_index-lt s v.idx (length v.list) (omega (arith, h.0)), h.1)

  with_selection :
      (sel : OsSelection) (p : Page fl)
      → Distinct (keys sel)
      → IsSound p
      → IsSound (record p { view = record p.view { os_sel = sel } })
  with_selection sel p once h = record {
    once = once;
    shown = h.shown;
    for_color = h.for_color;
    wide = h.wide;
  }

  row_key-IsSound :
      (key hex : Text) (p : Page fl)
      → IsSound p
      → IsSound (record p { view = on_row_key fl key hex p.view })
  unfolding on_row_key toggle_exp
  row_key-IsSound key hex p h =
      elim (Bool-cases (text_eq key (codes "Enter") || text_eq key (codes " "))) [
        | inl e ↦ rw (e, on_row_key) h
        | inr e ↦ rw (e, on_row_key) h
      ]

  measured-IsSound : (width : ℕ) (p : Page fl) → IsSound p → IsSound (measured fl width p)
  unfolding measured
  measured-IsSound width p h = elim (Bool-cases (not (width == 0) && not (width == p.band_width))) [
    | inr e ↦ rw e h
    | inl e ↦
        let wide : 0 < width = ground (arith, e) in
        rw e (record { once = h.once; shown = h.shown; for_color = h.for_color; wide = wide })
  ]

  press-IsSound :
      (c : Control) (p : Page fl) → All P colors → IsSound p → IsSound (press fl d colors c p)
  unfolding press set_search toggle_defaults_only toggle_family toggle_type toggle_exp
      toggle_os_slug toggle_os_fam step_pv
  press-IsSound (press_os slug) p of_site h =
      with_selection _ p (toggle_slug-Distinct slug p.view.os_sel h.once) h
  press-IsSound (press_os_family f) p of_site h =
      with_selection _ p (toggle_os_fam-Distinct fl d colors f p.view h.once) h
  press-IsSound clear_systems p of_site h = with_selection [] p tt h
  press-IsSound (row_key key hex) p of_site h = row_key-IsSound key hex p h
  press-IsSound (preview_in_band i) p of_site h =
      previewed-IsSound _ p (open_in_band-IsPlaceOf fl d colors P i p.view of_site) h
  press-IsSound (download_in_band i) p of_site h =
      downloaded-IsSound _ p (open_in_band-IsPlaceOf fl d colors P i p.view of_site) h
  press-IsSound (preview_ranked i) p of_site h =
      previewed-IsSound _ p (open_ranked-IsPlaceOf fl d colors P i p.view of_site) h
  press-IsSound (download_ranked i) p of_site h =
      downloaded-IsSound _ p (open_ranked-IsPlaceOf fl d colors P i p.view of_site) h
  press-IsSound (step_preview s) p of_site h = record {
    once = h.once;
    shown = stepped-IsShown s p.view.pv h.shown;
    for_color = h.for_color;
    wide = h.wide;
  }
  press-IsSound close_preview p of_site h = record {
    once = h.once;
    shown = tt;
    for_color = h.for_color;
    wide = h.wide;
  }
  press-IsSound close_sheet p of_site h = record {
    once = h.once;
    shown = h.shown;
    for_color = tt;
    wide = h.wide;
  }
  press-IsSound (measure width) p of_site h = measured-IsSound width p h
  press-IsSound (set_group g) p of_site h = h
  press-IsSound (set_sort s) p of_site h = h
  press-IsSound (search_for q) p of_site h = h
  press-IsSound press_defaults_only p of_site h = h
  press-IsSound toggle_os_panel p of_site h = h
  press-IsSound toggle_color_panel p of_site h = h
  press-IsSound (press_family k) p of_site h = h
  press-IsSound clear_family p of_site h = h
  press-IsSound (press_type k) p of_site h = h
  press-IsSound clear_type p of_site h = h
  press-IsSound (set_mode m) p of_site h = h
  press-IsSound (press_swatch hex) p of_site h = h

  first_page-IsSound : IsSound (first_page fl)
  unfolding first_page
  first_page-IsSound = record { once = tt; shown = tt; for_color = tt; wide = omega arith }

  sound : (p : Page fl) → All P colors → Reached fl d colors p → IsSound p
  sound _ of_site opened_page = first_page-IsSound
  sound _ of_site (pressed {p} c r can) = press-IsSound c p of_site (sound p of_site r)

  -- a preview at a place of its list shows a color
  shown_color :
      (o : Option (Preview fl))
      → IsShown o
      → (o ≡ none) ⊎ ((c : ColorEntry fl) × (color_at fl o ≡ some c) × P c)
  shown_color none h = inl refl
  shown_color (some v) h =
      let (c, e) = get_elem?-lt v.list v.idx h.0 in
      inr (c, e, (All-get_elem? P v.list v.idx c h.1 e).0)

  -- However the controls of the page are used: a preview that is open shows a color, and what holds of every
  -- color of the site holds of it and of the color that the download sheet is open for; so both show
  -- colors of the site only. No system is selected twice, and the width of a band is not 0.
  pub Reached_lem :
      (p : Page fl)
      → All P colors
      → Reached fl d colors p
      → ((p.view.pv ≡ none) ⊎ ((c : ColorEntry fl) × (current fl p.view ≡ some c) × P c))
        × IsFor p.sheet
        × Distinct (keys p.view.os_sel)
        × (0 < p.band_width)
  unfolding current
  Reached_lem p of_site r =
      let s = sound p of_site r in (shown_color p.view.pv s.shown, s.for_color, s.once, s.wide)
