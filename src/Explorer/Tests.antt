-- ===== src/Explorer/Tests.antt =====
-- The theorems on islands/Colors.tsx at one color and two systems.
use desktopcolors.Common.{
  ◌+◌, ◌/◌, ◌%◌, ◌≤◌, ◌<◌, ◌++◌, ◌⊎◌, arith, length, keys, Distinct, List, [], ◌∷◌, none, some,
  true, ◌≡◌, refl, codes, Dict, run,
}
use desktopcolors.Color.Types.{teal, cool, dark}
use desktopcolors.Color.Micros.{micros}
use desktopcolors.ColorCatalog.Defs.{ColorEntry, spectrum}
use desktopcolors.ColorCatalog.Platforms.{Platform}
use desktopcolors.ColorCatalog.Filters.{any_of, os_matches}
use desktopcolors.Explorer.Defs.{Explorer, flat, toggle_exp, bands, kept, matched, current}
use desktopcolors.ColorCatalog.Query.{matches_color_query}
use desktopcolors.ColorCatalog.Defs.{group_into_bands}
use desktopcolors.Page.Defs.{find_index}
use desktopcolors.Explorer.Panel.{
  cols, row_end, caret_left, panel_index, head_colors, tail_colors, panel_lem,
}
use desktopcolors.Explorer.Machine.{
  Page, press_swatch, preview_in_band, first_page, press, can_press, open_in_band, Reached,
  opened_page, pressed,
}
use desktopcolors.Explorer.Reached.{IsFor, Reached_lem}

abbrev teal_entry : ColorEntry micros
teal_entry = record {
  hex = codes "#008080";
  name = codes "Teal";
  family = teal;
  types = cool ∷ dark ∷ [];
  h = 0;
  s = 0;
  l = 0;
  on_color = codes "#ffffff";
  score = 0;
  score_label = codes "< 1k";
  year_range = codes "1995";
  primary_slug = codes "win95";
  href = codes "/os/win95/008080";
}

abbrev used_by : Dict (List Platform)
used_by =
    (
      codes "#008080",
      record {
        slug = codes "win95";
        name = codes "Windows 95";
        year = 1995;
        family = codes "Windows";
        is_default = true;
      }
          ∷ [],
    )
    ∷ []

abbrev state : Explorer micros
state = record {
  group = flat;
  sort_by = spectrum;
  search = codes " ";
  family = none;
  type = some cool;
  exp = none;
  os_sel = (codes "beos", tt) ∷ [];
  os_mode = any_of;
  defaults_only = true;
  pv = none;
}

-- 850 pixels hold six swatches in a row
panel_lem_example :
    (head_colors micros 850 (some 0) (teal_entry ∷ [])
        ++ tail_colors micros 850 (some 0) (teal_entry ∷ [])
      ≡ teal_entry ∷ [])
    × (length (head_colors micros 850 (some 0) (teal_entry ∷ [])) ≡ row_end (cols 850) 0 1 + 1)
    × (0 ≤ row_end (cols 850) 0 1)
    × (row_end (cols 850) 0 1 / cols 850 ≡ 0 / cols 850)
    × ((row_end (cols 850) 0 1 + 1 ≡ 1) ⊎ ((row_end (cols 850) 0 1 + 1) % cols 850 ≡ 0))
    × (caret_left (cols 850) 0 + 58 ≤ 850)
panel_lem_example = panel_lem micros 850 0 (teal_entry ∷ []) (omega arith) (omega arith)

-- the box of a color in its band, in the middle of a row
boxes : (cols 850 ≡ 6) × (row_end 6 7 20 ≡ 11) × (row_end 6 7 9 ≡ 8) × (caret_left 6 7 ≡ 186)
unfolding cols row_end caret_left
boxes = (refl, refl, refl, refl)

abbrev box_open : Page micros
box_open =
    press micros used_by (teal_entry ∷ []) (press_swatch (codes "#008080")) (first_page micros)

abbrev previewing : Page micros
previewing = press micros used_by (teal_entry ∷ []) (preview_in_band 0) box_open

previewing-Reached : Reached micros used_by (teal_entry ∷ []) previewing
unfolding can_press press first_page toggle_exp bands kept matched matches_color_query
    group_into_bands open_in_band panel_index find_index os_matches run
previewing-Reached =
    pressed (preview_in_band 0) (pressed (press_swatch (codes "#008080")) opened_page refl) refl

Reached_lem_example :
    ((previewing.view.pv ≡ none)
      ⊎ ((c : ColorEntry micros) × (current micros previewing.view ≡ some c) × (c ≡ teal_entry)))
    × IsFor micros used_by (teal_entry ∷ []) (λ c. c ≡ teal_entry) previewing.sheet
    × Distinct (keys previewing.view.os_sel)
    × (0 < previewing.band_width)
Reached_lem_example =
    Reached_lem micros used_by (teal_entry ∷ []) (λ c. c ≡ teal_entry) previewing (refl, tt)
      previewing-Reached
