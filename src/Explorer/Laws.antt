-- ===== src/Explorer/Laws.antt =====
-- Picking an enabled system in islands/Colors.tsx never empties the page.
use desktopcolors.Common.{List, true, false, ◌≡◌, arith, Text, text_eq, any, Dict}
use desktopcolors.Color.Floats.{Floats}
use desktopcolors.ColorCatalog.Defs.{ColorEntry}
use desktopcolors.ColorCatalog.Platforms.{Platform}
use desktopcolors.ColorCatalog.Filters.{selected, os_matches}
use desktopcolors.ColorCatalog.Filters.Laws.{tried, os_option_disabled_lem}
use desktopcolors.Explorer.Defs.{Explorer, os_universe_colors, os_disabled}

module _ (fl : Floats) (d : Dict (List Platform)) (colors : List (ColorEntry fl)) where
  enabled :
      (st : Explorer fl) (slug : Text)
      → any (λ k. text_eq k slug) (selected st.os_sel) ≡ false
      → os_disabled fl d colors st slug ≡ false
      → any
          (λ c. os_matches d c.hex (tried st.os_mode slug st.os_sel) st.os_mode st.defaults_only)
          (os_universe_colors fl d colors st)
        ≡ true
  unfolding os_disabled
  enabled st slug new h =
      let e =
        os_option_disabled_lem d slug (os_universe_colors fl d colors st) st.os_sel st.os_mode
          st.defaults_only in
      ground (arith, e, new, h)
