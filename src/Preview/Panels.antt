-- ===== src/Preview/Panels.antt =====
-- The panels of KDE and CDE in islands/DesktopPreview.tsx.
use Prim.Native.String.{String}
use desktopcolors.Common.{[], ◌∷◌, Text, codes}
use desktopcolors.Preview.Html.{Html, el, together, flat_map, test_id, style, prop, tpl}
use desktopcolors.Preview.Surfaces.{Surfaces, chrome_surfaces, cu}

unfoldable pub dock_view : Text → Html
dock_view on_color =
    let s = chrome_surfaces on_color in
    el "div"
      (test_id (codes "chrome-dock")
        ∷ style (
            prop "position" (codes "absolute")
            ∷ prop "left" (codes "0")
            ∷ prop "right" (codes "0")
            ∷ prop "bottom" (codes "0")
            ∷ prop "height" (cu "5.8")
            ∷ prop "background" s.panel
            ∷ prop "boxShadow" (tpl (codes "inset 0 " ∷ cu "0.3" ∷ codes " 0 " ∷ s.border ∷ []))
            ∷ prop "display" (codes "flex")
            ∷ prop "alignItems" (codes "center")
            ∷ prop "gap" (cu "1.4")
            ∷ prop "padding" (tpl (codes "0 " ∷ cu "2" ∷ []))
            ∷ [])
        ∷ [])
      (together (
        el "div"
          (style (
              prop "display" (codes "grid")
              ∷ prop "gridTemplateColumns" (codes "1fr 1fr")
              ∷ prop "gap" (cu "0.6")
              ∷ prop "width" (cu "3.2")
              ∷ prop "height" (cu "3.2")
              ∷ [])
            ∷ [])
          (flat_map
            (λ (i : String).
              el "span"
                (style (
                    prop "borderRadius" (cu "0.4")
                    ∷ prop "background" s.ink
                    ∷ prop "opacity" (codes "0.85")
                    ∷ [])
                  ∷ [])
                ([]))
            ("0" ∷ "1" ∷ "2" ∷ "3" ∷ []))
        ∷ el "span"
            (style (
                prop "width" (cu "11")
                ∷ prop "height" (cu "3.2")
                ∷ prop "borderRadius" (cu "1.6")
                ∷ prop "background" s.win
                ∷ [])
              ∷ [])
            ([])
        ∷ el "span"
            (style (
                prop "width" (cu "11")
                ∷ prop "height" (cu "3.2")
                ∷ prop "borderRadius" (cu "1.6")
                ∷ prop "boxShadow"
                    (tpl (codes "inset 0 0 0 " ∷ cu "0.3" ∷ codes " " ∷ s.border ∷ []))
                ∷ [])
              ∷ [])
            ([])
        ∷ el "span" (style (prop "flex" (codes "1") ∷ []) ∷ []) ([])
        ∷ el "span"
            (style (
                prop "width" (cu "2.2")
                ∷ prop "height" (cu "2.2")
                ∷ prop "borderRadius" (codes "50%")
                ∷ prop "background" s.soft
                ∷ [])
              ∷ [])
            ([])
        ∷ el "span"
            (style (
                prop "width" (cu "6.5")
                ∷ prop "height" (cu "2.6")
                ∷ prop "borderRadius" (cu "1.2")
                ∷ prop "background" s.win
                ∷ [])
              ∷ [])
            ([])
        ∷ []))

unfoldable pub panel_button : Surfaces → Html
panel_button s =
    el "span"
      (style (
          prop "width" (cu "5.4")
          ∷ prop "height" (cu "5.4")
          ∷ prop "borderRadius" (cu "1.2")
          ∷ prop "background" s.win
          ∷ prop "boxShadow" (tpl (codes "inset 0 0 0 " ∷ cu "0.3" ∷ codes " " ∷ s.border ∷ []))
          ∷ prop "display" (codes "flex")
          ∷ prop "alignItems" (codes "center")
          ∷ prop "justifyContent" (codes "center")
          ∷ [])
        ∷ [])
      (el "span"
        (style (
            prop "width" (cu "2.4")
            ∷ prop "height" (cu "2.4")
            ∷ prop "borderRadius" (cu "0.6")
            ∷ prop "background" s.soft
            ∷ [])
          ∷ [])
        ([]))

unfoldable pub front_panel_view : Text → Html
unfolding panel_button
front_panel_view on_color =
    let s = chrome_surfaces on_color in
    el "div"
      (test_id (codes "chrome-frontpanel")
        ∷ style (
            prop "position" (codes "absolute")
            ∷ prop "left" (codes "50%")
            ∷ prop "bottom" (cu "3")
            ∷ prop "transform" (codes "translateX(-50%)")
            ∷ prop "background" s.panel
            ∷ prop "borderRadius" (cu "2")
            ∷ prop "boxShadow" (tpl (codes "inset 0 0 0 " ∷ cu "0.3" ∷ codes " " ∷ s.border ∷ []))
            ∷ prop "display" (codes "flex")
            ∷ prop "alignItems" (codes "center")
            ∷ prop "gap" (cu "1.4")
            ∷ prop "padding" (cu "1.4")
            ∷ [])
        ∷ [])
      (together (
        panel_button s
        ∷ panel_button s
        ∷ el "div"
            (style (
                prop "display" (codes "grid")
                ∷ prop "gridTemplateColumns" (codes "1fr 1fr")
                ∷ prop "gap" (cu "0.6")
                ∷ prop "padding" (cu "0.8")
                ∷ prop "borderRadius" (cu "1")
                ∷ prop "boxShadow"
                    (tpl (codes "inset 0 0 0 " ∷ cu "0.3" ∷ codes " " ∷ s.border ∷ []))
                ∷ [])
              ∷ [])
            (flat_map
              (λ (i : String).
                el "span"
                  (style (
                      prop "width" (cu "2.4")
                      ∷ prop "height" (cu "1.8")
                      ∷ prop "borderRadius" (cu "0.4")
                      ∷ prop "background" s.soft
                      ∷ [])
                    ∷ [])
                  ([]))
              ("0" ∷ "1" ∷ "2" ∷ "3" ∷ []))
        ∷ panel_button s
        ∷ panel_button s
        ∷ []))
