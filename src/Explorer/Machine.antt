-- ===== src/Explorer/Machine.antt =====
-- The page of islands/Colors.tsx in use: its whole state, what each of its controls does, and where a
-- control can be pressed.
use desktopcolors.Common.{
  ℕ, List, [], ◌≡◌, map, Option, none, some, Bool, true, false, not, ◌&&◌, ◌||◌, Text, text_eq,
  codes, if◌then◌else◌, all, any, is_empty, get_elem?, ◌==◌, ltb, Dict,
}
use desktopcolors.Color.Floats.{Floats}
use desktopcolors.Color.Types.{FamilyKey, ColorTypeKey}
use desktopcolors.ColorCatalog.Defs.{
  ColorEntry, Sort, spectrum, same_family, same_type, Counts, family_counts, type_counts, Band,
}
use desktopcolors.ColorCatalog.Platforms.{Platform, OsFamily}
use desktopcolors.ColorCatalog.Filters.{OsMode, any_of, selected}
use desktopcolors.Explorer.Defs.{
  Explorer, Grouping, hue, flat, Step, matched, counts, t_counts, bands, ranking, no_results,
  os_disabled, toggle_os_slug, toggle_os_fam, set_search, toggle_defaults_only, toggle_family,
  toggle_type, toggle_exp, open_pv, step_pv, current,
}
use desktopcolors.Explorer.Panel.{panel_index}

-- what the download sheet is opened for
pub record Chosen : Type 0 where
  pub name : Text
  pub hex : Text
  pub slug : Text

abbrev is_some {ℓ} : {A : Type ℓ} → Option A → Bool
is_some none = false
is_some (some a) = true

abbrev is_hue : Grouping → Bool
is_hue hue = true
is_hue flat = false

pub data Control : Type 0 where
  set_group : Grouping → Control
  set_sort : Sort → Control
  search_for : Text → Control
  press_defaults_only toggle_os_panel toggle_color_panel : Control
  press_family : FamilyKey → Control
  clear_family clear_type : Control
  press_type : ColorTypeKey → Control
  set_mode : OsMode → Control
  clear_systems : Control
  press_os_family : OsFamily → Control
  press_os : Text → Control
  press_swatch : Text → Control
  row_key : Text → Text → Control
  preview_in_band download_in_band preview_ranked download_ranked : ℕ → Control
  step_preview : Step → Control
  close_preview close_sheet : Control
  measure : ℕ → Control

module _ (fl : Floats) where
  pub record Page : Type 0 where
    pub view : Explorer fl
    pub os_open : Bool
    pub color_open : Bool
    pub sheet : Option Chosen
    pub band_width : ℕ

  unfoldable pub first_page : Page
  first_page = record {
    view = record {
      group = hue;
      sort_by = spectrum;
      search = [];
      family = none;
      type = none;
      exp = none;
      os_sel = [];
      os_mode = any_of;
      defaults_only = false;
      pv = none;
    };
    os_open = false;
    color_open = false;
    sheet = none;
    band_width = 850;
  }

  abbrev pub chosen : ColorEntry fl → Chosen
  chosen c = record { name = c.name; hex = c.hex; slug = c.primary_slug }

  -- `onRowKey`
  unfoldable pub on_row_key : Text → Text → Explorer fl → Explorer fl
  on_row_key key hex st =
      if text_eq key (codes "Enter") || text_eq key (codes " ") then toggle_exp fl hex st else st

  -- `bandGridRef`
  unfoldable pub measured : ℕ → Page → Page
  measured width page =
      if not (width == 0) && not (width == page.band_width)
      then record page { band_width = width }
      else page

  module _ (platforms_by_hex : Dict (List Platform)) (colors : List (ColorEntry fl)) where
    -- `countsAll` and `tCountsAll`
    unfoldable pub counts_all : Explorer fl → Counts FamilyKey
    counts_all st = family_counts fl (matched fl platforms_by_hex colors st)

    unfoldable pub t_counts_all : Explorer fl → Counts ColorTypeKey
    t_counts_all st = type_counts fl (matched fl platforms_by_hex colors st)

    -- the colors of a band with the place whose box is open
    abbrev pub placed : List (ColorEntry fl) → Option ℕ → Option (List (ColorEntry fl) × ℕ)
    placed list none = none
    placed list (some idx) = some (list, idx)

    abbrev pub opened : Option Text → Option (Band fl) → Option (List (ColorEntry fl) × ℕ)
    opened exp none = none
    opened exp (some b) = placed b.colors (panel_index fl exp b.colors)

    -- the same of the band at a place, and of the row of the ranking at a place
    unfoldable pub open_in_band : ℕ → Explorer fl → Option (List (ColorEntry fl) × ℕ)
    open_in_band i st = opened st.exp (get_elem? (bands fl platforms_by_hex colors st) i)

    abbrev pub ranked : Explorer fl → List (ColorEntry fl)
    ranked st = map (λ r. r.color) (ranking fl platforms_by_hex colors st)

    abbrev pub is_exp : Option Text → Text → Bool
    is_exp none hex = false
    is_exp (some e) hex = text_eq e hex

    abbrev pub at_row :
        Option Text
        → List (ColorEntry fl)
        → ℕ
        → Option (ColorEntry fl)
        → Option (List (ColorEntry fl) × ℕ)
    at_row exp list i none = none
    at_row exp list i (some c) = if is_exp exp c.hex then some (list, i) else none

    unfoldable pub open_ranked : ℕ → Explorer fl → Option (List (ColorEntry fl) × ℕ)
    open_ranked i st = at_row st.exp (ranked st) i (get_elem? (ranked st) i)

    -- `openPv` and `setSheet` of an open box
    abbrev pub previewed : Option (List (ColorEntry fl) × ℕ) → Page → Page
    previewed none page = page
    previewed (some (list, idx)) page = record page { view = open_pv fl list idx page.view }

    abbrev pub sheet_for : Option (ColorEntry fl) → Page → Page
    sheet_for none page = page
    sheet_for (some c) page = record page { sheet = some (chosen c) }

    abbrev pub downloaded : Option (List (ColorEntry fl) × ℕ) → Page → Page
    downloaded none page = page
    downloaded (some (list, idx)) page = sheet_for (get_elem? list idx) page

    unfoldable pub press : Control → Page → Page
    unfolding on_row_key measured
    press (set_group g) p = record p { view = record p.view { group = g } }
    press (set_sort s) p = record p { view = record p.view { sort_by = s } }
    press (search_for q) p = record p { view = set_search fl q p.view }
    press press_defaults_only p = record p { view = toggle_defaults_only fl p.view }
    press toggle_os_panel p = record p { os_open = not p.os_open }
    press toggle_color_panel p = record p { color_open = not p.color_open }
    press (press_family k) p = record p { view = toggle_family fl k p.view }
    press clear_family p = record p { view = record p.view { family = none } }
    press (press_type k) p = record p { view = toggle_type fl k p.view }
    press clear_type p = record p { view = record p.view { type = none } }
    press (set_mode m) p = record p { view = record p.view { os_mode = m } }
    press clear_systems p = record p { view = record p.view { os_sel = [] } }
    press (press_os_family f) p = record p {
      view = toggle_os_fam fl platforms_by_hex colors f p.view;
    }
    press (press_os slug) p = record p { view = toggle_os_slug fl slug p.view }
    press (press_swatch hex) p = record p { view = toggle_exp fl hex p.view }
    press (row_key key hex) p = record p { view = on_row_key key hex p.view }
    press (preview_in_band i) p = previewed (open_in_band i p.view) p
    press (download_in_band i) p = downloaded (open_in_band i p.view) p
    press (preview_ranked i) p = previewed (open_ranked i p.view) p
    press (download_ranked i) p = downloaded (open_ranked i p.view) p
    press (step_preview s) p = record p { view = step_pv fl s p.view }
    press close_preview p = record p { view = record p.view { pv = none } }
    press close_sheet p = record p { sheet = none }
    press (measure width) p = measured width p

    abbrev is_family : Option FamilyKey → FamilyKey → Bool
    is_family none k = false
    is_family (some f) k = same_family f k

    abbrev is_type : Option ColorTypeKey → ColorTypeKey → Bool
    is_type none k = false
    is_type (some t) k = same_type t k

    -- a pill is shown where the search has a color of its key, and dimmed where the other filter has none
    unfoldable pub can_press : Control → Page → Bool
    unfolding counts_all t_counts_all open_in_band open_ranked
    can_press (press_family k) p =
        ltb 0 (counts_all p.view k)
        && (ltb 0 (counts fl platforms_by_hex colors p.view k) || is_family p.view.family k)
    can_press clear_family p = is_some p.view.family
    can_press (press_type k) p =
        ltb 0 (t_counts_all p.view k)
        && (ltb 0 (t_counts fl platforms_by_hex colors p.view k) || is_type p.view.type k)
    can_press clear_type p = is_some p.view.type
    can_press (set_mode m) p = p.os_open
    can_press clear_systems p = p.os_open && not (is_empty (selected p.view.os_sel))
    can_press (press_os_family f) p =
        p.os_open && not (all (λ o. os_disabled fl platforms_by_hex colors p.view o.slug) f.oses)
    can_press (press_os slug) p =
        p.os_open && not (os_disabled fl platforms_by_hex colors p.view slug)
    can_press (press_swatch hex) p =
        any (λ b. any (λ c. text_eq c.hex hex) b.colors) (bands fl platforms_by_hex colors p.view)
        || any (λ c. text_eq c.hex hex) (ranked p.view)
    can_press (row_key key hex) p = any (λ c. text_eq c.hex hex) (ranked p.view)
    can_press (preview_in_band i) p = is_some (open_in_band i p.view)
    can_press (download_in_band i) p = is_some (open_in_band i p.view)
    can_press (preview_ranked i) p = is_some (open_ranked i p.view)
    can_press (download_ranked i) p = is_some (open_ranked i p.view)
    can_press (step_preview s) p = is_some (current fl p.view)
    can_press close_preview p = is_some (current fl p.view)
    can_press close_sheet p = is_some p.sheet
    can_press (measure width) p =
        is_hue p.view.group && not (no_results fl platforms_by_hex colors p.view)
    can_press _ p = true

    -- the pages that using the controls comes to
    pub data Reached : Page → Type 0 where
      opened_page : Reached first_page
      pressed : {p : Page} (c : Control) → Reached p → can_press c p ≡ true → Reached (press c p)
