-- ===== src/ColorCatalog/Tests.antt =====
-- The theorems on lib/colorCatalog.ts at two colors and their systems.
use mathlib.Core.List.{Perm}
use desktopcolors.Common.{
  ℕ, Bool, ltb, key-IsWeakOrder, get_or, lookup, List, [], ◌∷◌, none, true, not, ◌&&◌, ◌≡◌, refl,
  Text, codes, text_eq, any, filter, length, All, Dict,
}
use desktopcolors.Color.Types.{FamilyKey, red, teal, ColorTypeKey, cool, dark, warm}
use desktopcolors.Color.Micros.{micros, micros-IsOrdered}
use desktopcolors.ColorCatalog.Defs.{ColorEntry, pop, BandOptions, matches, group_into_bands}
use desktopcolors.Catalog.{Catalog}
use desktopcolors.Detail.Samples.{os}
use desktopcolors.ColorCatalog.Platforms.{Platform, build_platforms_by_hex}
use desktopcolors.ColorCatalog.Uses.{
  uses, IsNameOrder, IsChronological, is_named, build_platforms_by_hex_lem,
}
use desktopcolors.ColorCatalog.Filters.{
  OsSelection, any_of, selected, os_option_disabled, os_matches,
}
use desktopcolors.ColorCatalog.Filters.Laws.{tried, os_option_disabled_lem}
use desktopcolors.ColorCatalog.Years.{label}
use desktopcolors.ColorCatalog.Bands.{IsBand, band_total, group_into_bands_lem}

abbrev shade : Text → Text → FamilyKey → List ColorTypeKey → ColorEntry micros
shade hex name family types = record {
  hex = hex;
  name = name;
  family = family;
  types = types;
  h = 0;
  s = 0;
  l = 0;
  on_color = codes "#ffffff";
  score = 0;
  score_label = codes "< 1k";
  year_range = label 1992 1995;
  primary_slug = codes "win95";
  href = codes "/os/win95/008080";
}

abbrev teal_entry : ColorEntry micros
teal_entry = shade (codes "#008080") (codes "Teal") teal (cool ∷ dark ∷ [])

abbrev colors : List (ColorEntry micros)
colors = teal_entry ∷ shade (codes "#ff0000") (codes "Red") red (warm ∷ []) ∷ []

abbrev used_by : Dict (List Platform)
used_by =
    (
      codes "#008080",
      record {
        slug = codes "win95";
        name = codes "Windows 95";
        year = 1995;
        family = codes "Windows";
        is_default = true;
      }
          ∷ [],
    )
    ∷ []

abbrev picked : OsSelection
picked = (codes "win95", tt) ∷ []

os_option_disabled_lem_example :
    os_option_disabled used_by (codes "beos") colors picked any_of true ≡ (
      not (any (λ k. text_eq k (codes "beos")) (selected picked))
      && not (
          any
            (λ c. os_matches used_by c.hex (tried any_of (codes "beos") picked) any_of true)
            colors))
os_option_disabled_lem_example =
    os_option_disabled_lem used_by {fl = micros} (codes "beos") colors picked any_of true

abbrev options : BandOptions micros
options = record { family = none; types = cool ∷ warm ∷ []; sort_by = pop }

group_into_bands_lem_example :
    All (IsBand micros colors options) (group_into_bands micros colors options)
    × (band_total micros (group_into_bands micros colors options)
        ≡ length (filter (matches micros options) colors))
group_into_bands_lem_example =
    group_into_bands_lem micros micros-IsOrdered colors options ((refl, refl), ((refl, refl), tt))

abbrev catalog : Catalog
catalog = record { os_list = os ∷ os ∷ []; colors = [] }

-- a stand-in for `localeCompare`: the shorter name is first
abbrev by_name : Text → Text → Bool
by_name a b = ltb (length a) (length b)

by_name-IsNameOrder : IsNameOrder by_name
by_name-IsNameOrder = key-IsWeakOrder length

build_platforms_by_hex_lem_example :
    let shown = get_or (lookup (codes "#008080") (build_platforms_by_hex by_name catalog)) [] in
    Perm shown (uses (codes "#008080") catalog.os_list)
    × IsChronological by_name shown
    × ((year : ℕ) (name : Text)
        → filter (is_named year name) shown
          ≡ filter (is_named year name) (uses (codes "#008080") catalog.os_list))
build_platforms_by_hex_lem_example =
    build_platforms_by_hex_lem by_name by_name-IsNameOrder catalog (codes "#008080")
