-- ===== src/Preview/Modern.antt =====
-- The scene of the style `modern` in islands/DesktopPreview.tsx.
use desktopcolors.Common.{List, [], ◌∷◌, Text, codes}
use desktopcolors.Preview.Html.{Html, el, txt, together, flat_map, test_id, attr, tpl}
use desktopcolors.Preview.Surfaces.{surfaces, u, unit}
use desktopcolors.Preview.ModernWindows.{modern_window_stack}

pub record ModernIcon : Type 0 where
  pub label : Text
  pub d : Text

-- `icons` of `ModernDeskIcons`
unfoldable pub modern_icons : List ModernIcon
modern_icons =
    record { label = codes "Files"; d = codes "M3 6.5 h6 l2 2 h10 v10 h-18 z" }
    ∷ record { label = codes "Trash"; d = codes "M5 7 h14 M8 7 v-2 h8 v2 M6.5 7 l1 13 h9 l1 -13" }
    ∷ []

unfoldable pub modern_desk_icons : Text → Html
unfolding modern_icons
modern_desk_icons on_color =
    el "div"
      (test_id (codes "chrome-desk-icons")
        ∷ attr "style" (
            tpl (
              codes "--u: "
              ∷ unit
              ∷ codes "; position: absolute; left: "
              ∷ u "4"
              ∷ codes "; top: "
              ∷ u "5"
              ∷ codes "; display: flex; flex-direction: column; gap: "
              ∷ u "3"
              ∷ codes ";"
              ∷ []))
        ∷ [])
      (flat_map
        (λ (ic : ModernIcon).
          el "div"
            (attr "style" (
                tpl (
                  codes "display: flex; flex-direction: column; align-items: center; gap: "
                  ∷ u "0.8"
                  ∷ codes "; width: "
                  ∷ u "12"
                  ∷ codes ";"
                  ∷ []))
              ∷ [])
            (together (
              el "svg"
                (attr "viewBox" (codes "0 0 24 24")
                  ∷ attr "fill" (codes "none")
                  ∷ attr "stroke" on_color
                  ∷ attr "stroke-width" (codes "1.6")
                  ∷ attr "stroke-linecap" (codes "round")
                  ∷ attr "stroke-linejoin" (codes "round")
                  ∷ attr "style"
                      (tpl (codes "width: " ∷ u "6" ∷ codes "; height: " ∷ u "6" ∷ codes ";" ∷ []))
                  ∷ [])
                (el "path" (attr "d" ic.d ∷ []) ([]))
              ∷ el "span"
                  (attr "style" (
                      tpl (
                        codes "font: 500 "
                        ∷ u "2.4"
                        ∷ codes " var(--font-ui); opacity: 0.85; color: "
                        ∷ on_color
                        ∷ codes ";"
                        ∷ []))
                    ∷ [])
                  (txt ic.label)
              ∷ [])))
        modern_icons)

unfoldable pub modern_dock : Text → Html
modern_dock on_color =
    let s = surfaces on_color in
    el "div"
      (test_id (codes "chrome-dock")
        ∷ attr "style" (
            tpl (
              codes "--u: "
              ∷ unit
              ∷ codes "; position: absolute; left: "
              ∷ u "4"
              ∷ codes "; right: "
              ∷ u "4"
              ∷ codes "; bottom: "
              ∷ u "4"
              ∷ codes "; height: "
              ∷ u "6"
              ∷ codes "; border-radius: "
              ∷ u "3"
              ∷ codes "; background: "
              ∷ s.panel
              ∷ codes "; display: flex; align-items: center; gap: "
              ∷ u "2.4"
              ∷ codes "; padding: 0 "
              ∷ u "3"
              ∷ codes ";"
              ∷ []))
        ∷ [])
      (together (
        el "span"
          (attr "style" (
              tpl (
                codes "width: "
                ∷ u "2.4"
                ∷ codes "; height: "
                ∷ u "2.4"
                ∷ codes "; border-radius: "
                ∷ u "0.6"
                ∷ codes "; background: "
                ∷ s.ink
                ∷ codes ";"
                ∷ []))
            ∷ [])
          ([])
        ∷ el "span"
            (attr "style" (
                tpl (
                  codes "width: "
                  ∷ u "2.4"
                  ∷ codes "; height: "
                  ∷ u "2.4"
                  ∷ codes "; border-radius: "
                  ∷ u "0.6"
                  ∷ codes "; background: "
                  ∷ s.border
                  ∷ codes ";"
                  ∷ []))
              ∷ [])
            ([])
        ∷ el "span"
            (attr "style" (
                tpl (
                  codes "width: "
                  ∷ u "2.4"
                  ∷ codes "; height: "
                  ∷ u "2.4"
                  ∷ codes "; border-radius: "
                  ∷ u "0.6"
                  ∷ codes "; background: "
                  ∷ s.border
                  ∷ codes ";"
                  ∷ []))
              ∷ [])
            ([])
        ∷ el "span"
            (attr "style" (
                tpl (
                  codes "width: "
                  ∷ u "0.3"
                  ∷ codes "; height: "
                  ∷ u "3"
                  ∷ codes "; background: "
                  ∷ s.border
                  ∷ codes ";"
                  ∷ []))
              ∷ [])
            ([])
        ∷ el "span"
            (attr "style" (
                tpl (
                  codes "width: "
                  ∷ u "2.4"
                  ∷ codes "; height: "
                  ∷ u "2.4"
                  ∷ codes "; border-radius: "
                  ∷ u "0.6"
                  ∷ codes "; background: "
                  ∷ s.border
                  ∷ codes ";"
                  ∷ []))
              ∷ [])
            ([])
        ∷ el "span"
            (attr "style" (
                tpl (
                  codes "margin-left: auto; font: 500 "
                  ∷ u "2.8"
                  ∷ codes " var(--font-mono); opacity: 0.9; color: "
                  ∷ s.ink
                  ∷ codes ";"
                  ∷ []))
              ∷ [])
            (txt (codes "10:42"))
        ∷ []))

unfoldable pub modern_scene : Text → Html
unfolding modern_desk_icons modern_window_stack modern_dock
modern_scene on_color =
    together (modern_desk_icons on_color ∷ modern_window_stack on_color ∷ modern_dock on_color ∷ [])
