-- ===== src/Preview/Icons.antt =====
-- The icons and window contents of islands/DesktopPreview.tsx.
use Prim.Native.String.{String}
use desktopcolors.Common.{ℕ, List, [], ◌∷◌, ◌++◌, Option, none, some, Text, codes, show}
use desktopcolors.Chrome.Defs.{
  IconKind, computer, folder, trash, drive, disk, WindowBody, grid_icons, rows, panes, Anchor, top,
  bottom, Side, left, right, DeskIcon, desk_icon,
}
use desktopcolors.Preview.Html.{
  Html, el, txt, together, flat_map, repeat_html, test_id, attr, style, prop, tpl,
}
use desktopcolors.Preview.Surfaces.{Surfaces, chrome_surfaces, cu}

-- `ICON_PATHS`; every kind has its paths
unfoldable pub icon_paths : IconKind → List Text
icon_paths computer = codes "M3 5.5 h18 v10 h-18 z" ∷ codes "M9 19.5 h6" ∷ codes "M12 15.5 v4" ∷ []
icon_paths folder = codes "M3 7 h6 l2 2 h10 v9 h-18 z" ∷ []
icon_paths trash = codes "M5 7 h14" ∷ codes "M8 7 v-2 h8 v2" ∷ codes "M7 7 l1 12 h8 l1 -12" ∷ []
icon_paths drive = codes "M4 6 h16 v12 h-16 z" ∷ codes "M7 10 h4" ∷ codes "M7 14 h10" ∷ []
icon_paths disk =
    codes "M5 4 h11 l4 4 v12 h-19 v-16 z" ∷ codes "M8 4 v5 h6 v-5" ∷ codes "M8 13 h8 v7 h-8 z" ∷ []

unfoldable pub line_icon : IconKind → Text → String → Html
unfolding icon_paths
line_icon kind on_color size =
    el "svg"
      (attr "viewBox" (codes "0 0 24 24")
        ∷ attr "fill" (codes "none")
        ∷ attr "stroke" on_color
        ∷ attr "stroke-width" (codes "1.6")
        ∷ attr "stroke-linecap" (codes "round")
        ∷ attr "stroke-linejoin" (codes "round")
        ∷ style
            (prop "width" (cu size) ∷ prop "height" (cu size) ∷ prop "opacity" (codes "0.9") ∷ [])
        ∷ [])
      (flat_map (λ (d : Text). el "path" (attr "d" d ∷ []) ([])) (icon_paths kind))

unfoldable pub dots : Surfaces → ℕ → Html
dots s n = el "div" (style (prop "display" (codes "flex") ∷ prop "gap" (cu "1") ∷ []) ∷ []) (
    repeat_html n (
      el "span"
        (style (
            prop "width" (cu "1.8")
            ∷ prop "height" (cu "1.8")
            ∷ prop "borderRadius" (codes "50%")
            ∷ prop "boxShadow" (tpl (codes "inset 0 0 0 " ∷ cu "0.35" ∷ codes " " ∷ s.border ∷ []))
            ∷ [])
          ∷ [])
        ([])))

unfoldable pub pane : Text → Html
unfolding line_icon
pane on_color =
    let s = chrome_surfaces on_color in
    el "div"
      (style (
          prop "background" s.panel
          ∷ prop "borderRadius" (cu "1.4")
          ∷ prop "boxShadow" (tpl (codes "inset 0 0 0 " ∷ cu "0.3" ∷ codes " " ∷ s.border ∷ []))
          ∷ [])
        ∷ [])
      (together (
        el "div"
          (style (
              prop "height" (cu "4")
              ∷ prop "boxShadow"
                  (tpl (codes "inset 0 calc(" ∷ cu "0.3" ∷ codes " * -1) 0 " ∷ s.border ∷ []))
              ∷ prop "display" (codes "flex")
              ∷ prop "alignItems" (codes "center")
              ∷ prop "padding" (tpl (codes "0 " ∷ cu "1.4" ∷ []))
              ∷ [])
            ∷ [])
          (el "span"
            (style (
                prop "width" (cu "8")
                ∷ prop "height" (cu "1.3")
                ∷ prop "borderRadius" (cu "0.8")
                ∷ prop "background" s.soft
                ∷ [])
              ∷ [])
            ([]))
        ∷ el "div"
            (style (
                prop "padding" (cu "1.4")
                ∷ prop "display" (codes "grid")
                ∷ prop "gridTemplateColumns" (codes "repeat(3, 1fr)")
                ∷ prop "gap" (cu "1.6")
                ∷ prop "justifyItems" (codes "center")
                ∷ [])
              ∷ [])
            (flat_map (λ (k : IconKind). line_icon k on_color ("4"))
              (folder ∷ folder ∷ folder ∷ disk ∷ drive ∷ folder ∷ []))
        ∷ []))

unfoldable pub window_body_view : WindowBody → Text → Html
unfolding line_icon pane
window_body_view (grid_icons icons cols) on_color =
    el "div"
      (style (
          prop "display" (codes "grid")
          ∷ prop "gridTemplateColumns" (tpl (codes "repeat(" ∷ (show cols) ∷ codes ", 1fr)" ∷ []))
          ∷ prop "gap" (cu "1.6")
          ∷ prop "justifyItems" (codes "center")
          ∷ [])
        ∷ [])
      (flat_map (λ (k : IconKind). line_icon k on_color ("4")) icons)
window_body_view (rows widths) on_color =
    let s = chrome_surfaces on_color in
    el "div"
      (style (
          prop "display" (codes "flex")
          ∷ prop "flexDirection" (codes "column")
          ∷ prop "gap" (cu "1.4")
          ∷ [])
        ∷ [])
      (flat_map
        (λ (w : ℕ).
          el "span"
            (style (
                prop "height" (cu "1.4")
                ∷ prop "width" (tpl ((show w) ∷ codes "%" ∷ []))
                ∷ prop "borderRadius" (cu "0.8")
                ∷ prop "background" s.border
                ∷ [])
              ∷ [])
            ([]))
        widths)
window_body_view (panes count) on_color =
    el "div"
      (style (
          prop "display" (codes "grid")
          ∷ prop "gridTemplateColumns" (codes "1fr 1fr")
          ∷ prop "gap" (cu "2")
          ∷ [])
        ∷ [])
      (together (pane on_color ∷ pane on_color ∷ []))

abbrev icon_kind : DeskIcon → IconKind
icon_kind (desk_icon kind label) = kind

abbrev icon_label : DeskIcon → Text
icon_label (desk_icon kind label) = label

-- `right` or `left`, and `bottom` or `top`, the default
abbrev side_of : Side → List (Text × Text)
side_of right = prop "right" (cu "4.5") ∷ []
side_of left = prop "left" (cu "4") ∷ []

abbrev anchor_of : Option Anchor → List (Text × Text)
anchor_of (some bottom) = prop "bottom" (cu "11") ∷ []
anchor_of (some top) = prop "top" (cu "6") ∷ []
anchor_of none = prop "top" (cu "6") ∷ []

unfoldable pub desk_icons_view : Side → Option Anchor → List DeskIcon → Text → Html
unfolding line_icon
desk_icons_view side anchor icons on_color =
    el "div"
      (test_id (codes "chrome-deskicons")
        ∷ style (
            (prop "position" (codes "absolute") ∷ [])
            ++ ((anchor_of anchor)
                ++ ((side_of side)
                    ++ (prop "display" (codes "flex")
                        ∷ prop "flexDirection" (codes "column")
                        ∷ prop "gap" (cu "3.2")
                        ∷ prop "alignItems" (codes "center")
                        ∷ []))))
        ∷ [])
      (flat_map
        (λ (ic : DeskIcon).
          el "div"
            (style (
                prop "display" (codes "flex")
                ∷ prop "flexDirection" (codes "column")
                ∷ prop "alignItems" (codes "center")
                ∷ prop "gap" (cu "0.9")
                ∷ prop "width" (cu "13")
                ∷ [])
              ∷ [])
            (together (
              line_icon (icon_kind ic) on_color ("6")
              ∷ el "span"
                  (style (
                      prop "font" (tpl (codes "500 " ∷ cu "2.4" ∷ codes " var(--font-ui)" ∷ []))
                      ∷ prop "color" on_color
                      ∷ prop "opacity" (codes "0.85")
                      ∷ prop "textAlign" (codes "center")
                      ∷ prop "lineHeight" (codes "1.15")
                      ∷ [])
                    ∷ [])
                  (txt (icon_label ic))
              ∷ [])))
        icons)
