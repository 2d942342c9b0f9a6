-- ===== src/Preview/Bars.antt =====
-- The bars and panels of islands/DesktopPreview.tsx.
use Prim.Native.String.{String}
use desktopcolors.Common.{[], ◌∷◌, Text, codes}
use desktopcolors.Preview.Html.{Html, el, together, flat_map, test_id, style, prop, tpl}
use desktopcolors.Preview.Surfaces.{chrome_surfaces, cu}

unfoldable pub taskbar_view : Text → Html
taskbar_view on_color =
    let s = chrome_surfaces on_color in
    el "div"
      (test_id (codes "chrome-taskbar")
        ∷ style (
            prop "position" (codes "absolute")
            ∷ prop "left" (cu "3")
            ∷ prop "right" (cu "3")
            ∷ prop "bottom" (cu "3")
            ∷ prop "height" (cu "6.4")
            ∷ prop "borderRadius" (cu "2")
            ∷ prop "background" s.panel
            ∷ prop "boxShadow" (tpl (codes "inset 0 0 0 " ∷ cu "0.3" ∷ codes " " ∷ s.border ∷ []))
            ∷ prop "display" (codes "flex")
            ∷ prop "alignItems" (codes "center")
            ∷ prop "gap" (cu "1.6")
            ∷ prop "padding" (tpl (codes "0 " ∷ cu "2" ∷ []))
            ∷ [])
        ∷ [])
      (together (
        el "div"
          (style (
              prop "display" (codes "grid")
              ∷ prop "gridTemplateColumns" (codes "1fr 1fr")
              ∷ prop "gap" (cu "0.6")
              ∷ prop "width" (cu "3.2")
              ∷ prop "height" (cu "3.2")
              ∷ [])
            ∷ [])
          (flat_map
            (λ (i : String).
              el "span"
                (style (
                    prop "borderRadius" (cu "0.4")
                    ∷ prop "background" s.ink
                    ∷ prop "opacity" (codes "0.85")
                    ∷ [])
                  ∷ [])
                ([]))
            ("0" ∷ "1" ∷ "2" ∷ "3" ∷ []))
        ∷ el "span"
            (style
                (prop "width" (cu "0.4") ∷ prop "height" (cu "4") ∷ prop "background" s.border ∷ [])
              ∷ [])
            ([])
        ∷ el "span"
            (style (
                prop "width" (cu "9")
                ∷ prop "height" (cu "3")
                ∷ prop "borderRadius" (cu "1.4")
                ∷ prop "boxShadow"
                    (tpl (codes "inset 0 0 0 " ∷ cu "0.3" ∷ codes " " ∷ s.border ∷ []))
                ∷ [])
              ∷ [])
            ([])
        ∷ el "span" (style (prop "flex" (codes "1") ∷ []) ∷ []) ([])
        ∷ el "span"
            (style (
                prop "width" (cu "9")
                ∷ prop "height" (cu "3")
                ∷ prop "borderRadius" (cu "1.4")
                ∷ prop "background" s.win
                ∷ [])
              ∷ [])
            ([])
        ∷ []))

unfoldable pub menu_bar_view : Text → Html
menu_bar_view on_color =
    let s = chrome_surfaces on_color in
    el "div"
      (test_id (codes "chrome-menubar")
        ∷ style (
            prop "position" (codes "absolute")
            ∷ prop "left" (codes "0")
            ∷ prop "right" (codes "0")
            ∷ prop "top" (codes "0")
            ∷ prop "height" (cu "5.4")
            ∷ prop "background" s.panel
            ∷ prop "boxShadow"
                (tpl (codes "inset 0 calc(" ∷ cu "0.3" ∷ codes " * -1) 0 " ∷ s.border ∷ []))
            ∷ prop "display" (codes "flex")
            ∷ prop "alignItems" (codes "center")
            ∷ prop "gap" (cu "2.4")
            ∷ prop "padding" (tpl (codes "0 " ∷ cu "2.4" ∷ []))
            ∷ [])
        ∷ [])
      (together (
        el "span"
          (style (
              prop "width" (cu "2.6")
              ∷ prop "height" (cu "2.6")
              ∷ prop "borderRadius" (codes "50%")
              ∷ prop "background" s.soft
              ∷ [])
            ∷ [])
          ([])
        ∷ flat_map
            (λ (i : String).
              el "span"
                (style (
                    prop "width" (cu "5")
                    ∷ prop "height" (cu "1.4")
                    ∷ prop "borderRadius" (cu "0.8")
                    ∷ prop "background" s.soft
                    ∷ [])
                  ∷ [])
                ([]))
            ("0" ∷ "1" ∷ "2" ∷ [])
        ∷ el "span"
            (style (
                prop "marginLeft" (codes "auto")
                ∷ prop "width" (cu "7")
                ∷ prop "height" (cu "2")
                ∷ prop "borderRadius" (cu "1")
                ∷ prop "background" s.soft
                ∷ [])
              ∷ [])
            ([])
        ∷ []))

unfoldable pub top_bar_view : Text → Html
top_bar_view on_color =
    let s = chrome_surfaces on_color in
    el "div"
      (test_id (codes "chrome-topbar")
        ∷ style (
            prop "position" (codes "absolute")
            ∷ prop "left" (codes "0")
            ∷ prop "right" (codes "0")
            ∷ prop "top" (codes "0")
            ∷ prop "height" (cu "5")
            ∷ prop "background" s.panel
            ∷ prop "boxShadow"
                (tpl (codes "inset 0 calc(" ∷ cu "0.3" ∷ codes " * -1) 0 " ∷ s.border ∷ []))
            ∷ prop "display" (codes "flex")
            ∷ prop "alignItems" (codes "center")
            ∷ prop "justifyContent" (codes "flex-end")
            ∷ prop "gap" (cu "1.2")
            ∷ prop "padding" (tpl (codes "0 " ∷ cu "1.8" ∷ []))
            ∷ [])
        ∷ [])
      (together (
        el "span"
          (style (
              prop "marginRight" (codes "auto")
              ∷ prop "width" (cu "16")
              ∷ prop "height" (cu "1.6")
              ∷ prop "borderRadius" (cu "0.8")
              ∷ prop "background" s.soft
              ∷ [])
            ∷ [])
          ([])
        ∷ flat_map
            (λ (i : String).
              el "span"
                (style (
                    prop "width" (cu "3.6")
                    ∷ prop "height" (cu "3")
                    ∷ prop "borderRadius" (cu "0.8")
                    ∷ prop "boxShadow"
                        (tpl (codes "inset 0 0 0 " ∷ cu "0.3" ∷ codes " " ∷ s.border ∷ []))
                    ∷ [])
                  ∷ [])
                ([]))
            ("0" ∷ "1" ∷ [])
        ∷ []))

unfoldable pub beos_tab_view : Text → Html
beos_tab_view on_color =
    let s = chrome_surfaces on_color in
    el "div"
      (test_id (codes "chrome-beostab")
        ∷ style (
            prop "position" (codes "absolute")
            ∷ prop "right" (cu "4")
            ∷ prop "top" (codes "0")
            ∷ prop "width" (cu "20")
            ∷ prop "height" (cu "5")
            ∷ prop "borderRadius" (tpl (codes "0 0 " ∷ cu "1.8" ∷ codes " " ∷ cu "1.8" ∷ []))
            ∷ prop "background" s.panel
            ∷ prop "boxShadow" (tpl (codes "inset 0 0 0 " ∷ cu "0.3" ∷ codes " " ∷ s.border ∷ []))
            ∷ prop "display" (codes "flex")
            ∷ prop "alignItems" (codes "center")
            ∷ prop "gap" (cu "1.2")
            ∷ prop "padding" (tpl (codes "0 " ∷ cu "1.8" ∷ []))
            ∷ [])
        ∷ [])
      (together (
        el "span"
          (style (
              prop "width" (cu "2.4")
              ∷ prop "height" (cu "2.4")
              ∷ prop "borderRadius" (cu "0.6")
              ∷ prop "background" s.soft
              ∷ [])
            ∷ [])
          ([])
        ∷ flat_map
            (λ (i : String).
              el "span"
                (style (
                    prop "flex" (codes "1")
                    ∷ prop "height" (cu "1.3")
                    ∷ prop "borderRadius" (cu "0.8")
                    ∷ prop "background" s.soft
                    ∷ [])
                  ∷ [])
                ([]))
            ("0" ∷ "1" ∷ [])
        ∷ []))
